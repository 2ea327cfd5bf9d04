-- ===== src/Family.antt =====
-- The four controller files as one family, to state once what all of them do.
pub mod Status
pub mod Manifests
pub mod Replies
pub mod Convergence
pub mod Unordered
pub mod Plain
pub mod Types
pub mod Cluster
pub mod Exchange
pub mod Startup
pub mod Reports
pub mod Webhook
use kubefrog_kvmserver.Prelude.{String, List, ℕ}
use kubefrog_kvmserver.Python.Errors.{Result}
use kubefrog_kvmserver.Python.Exec.{Exec}
use kubefrog_kvmserver.Python.Json.{Json}
use kubefrog_kvmserver.Controller.Settings.{Settings, Defaults}
use kubefrog_kvmserver.Controller.Sync
use kubefrog_kvmserver.Controller.Sync.{Variant, Line}
use kubefrog_kvmserver.SyncCurrent
use kubefrog_kvmserver.SyncDebugFrontend
use kubefrog_kvmserver.SyncOld
use kubefrog_kvmserver.SyncNew

-- sync.py, sync-debug-frontend.py, sync_old.py, sync_new.py
pub data File : Type 0 where
  current debug_frontend old new : File

abbrev pub variant : File → Variant
variant current = SyncCurrent.variant
variant debug_frontend = SyncDebugFrontend.variant
variant old = SyncOld.variant
variant new = SyncNew.variant

unfoldable pub sync : File → Settings → Json → Json → Exec (List Line) Json
unfolding SyncCurrent.sync SyncDebugFrontend.sync SyncOld.sync SyncNew.sync
sync current = SyncCurrent.sync
sync debug_frontend = SyncDebugFrontend.sync
sync old = SyncOld.sync
sync new = SyncNew.sync

abbrev pub defaults : File → Defaults
defaults current = SyncCurrent.defaults
defaults debug_frontend = SyncDebugFrontend.defaults
defaults old = SyncOld.defaults
defaults new = SyncNew.defaults
