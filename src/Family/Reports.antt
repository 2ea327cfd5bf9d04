-- ===== src/Family/Reports.antt =====
-- Reports of metacontroller without an order: what a controller makes of one.
use kubefrog_kvmserver.Prelude.{ℕ, String, ◌≡◌, List, All}
use mathlib.Core.HLevel.{Π_prop}
use mathlib.Core.Quot
use mathlib.Core.Quot.{Quot}
use text.Mathlib.TextEquality.{IsScalar-prop}
use kubefrog_kvmserver.Python.Errors.{Result, ◌>>=◌}
use kubefrog_kvmserver.Python.Json.{Json, index, len}
use kubefrog_kvmserver.Python.Json.Unordered.{Same, len-index-Same}
use kubefrog_kvmserver.Controller.Settings.{Settings}
use kubefrog_kvmserver.Controller.Inventory.{groups}
use kubefrog_kvmserver.Controller.Sync.{Line}
use kubefrog_kvmserver.Family.{File, sync}
use kubefrog_kvmserver.Family.Unordered.{sync-reads_sizes, sync-ignores_order}

-- A value of JSON, up to the order of the members of its objects.
abbrev pub Report : Type 0
Report = Quot Same

pub size-set : IsSet (Result ℕ)
size-set = hlevel IsScalar-prop

pub outcome-set : IsSet (List Line → Result Json × List Line)
outcome-set = hlevel IsScalar-prop

-- How many objects a report has in a group.
abbrev pub size_in : String → Report → Result ℕ
size_in g = Quot.lift size-set (λ v. index v g >>= len) (λ v w h. len-index-Same g h)

-- `sync`, on a report.
abbrev pub sync_report : File → Settings → Json → Report → List Line → Result Json × List Line
sync_report f s parent =
    Quot.lift outcome-set (sync f s parent) (λ v w h. sync-ignores_order f s parent h)

-- In each of the four files, `sync` is a function of the report without its order, and what it returns,
-- raises and prints for observed attachments it does for every report that has as many objects
-- in each of the six watched groups, whatever these objects are.
pub sync_report-sizes :
    (f : File) (s : Settings) (parent observed : Json) (report : Report)
    → All (λ g. size_in g report ≡ (index observed g >>= len)) groups
    → sync_report f s parent report ≡ sync f s parent observed
sync_report-sizes f s parent observed =
    Quot.ind (λ r. Π_prop (λ h. outcome-set _ _)) (λ v h. sync-reads_sizes f s parent v observed h)
