-- ===== src/Family/Startup.antt =====
-- What the `main` functions start, and where the credentials of the attached Secret come from.
use kubefrog_kvmserver.Prelude.{String, ◌≡◌, ◌↔◌, refl, none, some}
use mathlib.Core.Option.{some-injective}
use kubefrog_kvmserver.Python.Errors.{>>=-eq-ok, ok, ◌>>=◌}
use kubefrog_kvmserver.Python.Numeral.{codes}
use kubefrog_kvmserver.Python.Base64.{utf8, b64encode}
use kubefrog_kvmserver.Python.Base64.Laws.{b64decode, b64decode-b64encode-utf8}
use kubefrog_kvmserver.Python.Json.{Json}
use kubefrog_kvmserver.Controller.Settings.{
  Env, Overrides, no_overrides, Settings, get_settings, Server, server_factory,
}
use kubefrog_kvmserver.Controller.Settings.Precedence.{
  get_settings_iff, get_settings_again, get_settings-with_image,
}
use kubefrog_kvmserver.Controller.Sync.{secret}
use kubefrog_kvmserver.Controller.Inventory.{child, text_of}
use kubefrog_kvmserver.SyncCurrent
use kubefrog_kvmserver.SyncNew
use kubefrog_kvmserver.Family.{File, defaults}

-- The arguments that `main` of sync.py passes in the end.
abbrev pub execution_root : Overrides
execution_root = record no_overrides {
  kfp_default_pipeline_root = some "s3://ml-pipeline-execution";
}

-- `main` of sync.py starts a server, or raises, as if it read the settings once, with the pipeline
-- root "s3://ml-pipeline-execution": the settings that it reads first have no effect.
main-current :
    (env : Env)
    → SyncCurrent.main env
      ≡ (SyncCurrent.get_settings_from_env env execution_root >>= server_factory)
unfolding SyncCurrent.main
main-current env =
    unfold SyncCurrent.get_settings_from_env in
    get_settings_again SyncCurrent.defaults env no_overrides (some "s3://ml-pipeline-execution")
      server_factory

-- The arguments of the first reading in `main` of sync_new.py.
abbrev debug_image : Overrides
debug_image = record no_overrides {
  visualization_server_tag = some "1.7.1-debug";
  visualization_server_image = some "syno.registry:45000/ml-pipeline/visualization-server";
}

-- `main` of sync_new.py starts a server exactly if the settings without any argument and their port
-- give it: the debug image and tag that it reads first have no effect on the server.
pub main-new_iff :
    (env : Env) (server : Server)
    → (SyncNew.main env ≡ ok server)
      ↔ ((SyncNew.get_settings_from_env env no_overrides >>= server_factory) ≡ ok server)
unfolding SyncNew.main SyncNew.get_settings_from_env
main-new_iff env server = (
  λ h.
      let (dropped, _, rest) = >>=-eq-ok (get_settings SyncNew.defaults env debug_image) _ h in
      rest,
  λ h.
      let (s, e, _) = >>=-eq-ok (get_settings SyncNew.defaults env no_overrides) _ h in
      rw
        (get_settings-with_image SyncNew.defaults env no_overrides s "1.7.1-debug"
          "syno.registry:45000/ml-pipeline/visualization-server" refl refl e)
        h,
)

decoded :
    (value : String) {stored : String}
    → some (b64encode (utf8 value)) ≡ some stored
    → b64decode (codes stored) ≡ utf8 value
decoded value e = rw (← some-injective _ _ e) (b64decode-b64encode-utf8 value)

-- The Secret that a file attaches, with settings read from an environment that has both MinIO
-- credentials and with no arguments for them, decodes to the UTF-8 bytes of these credentials.
pub secret-decodes :
    (f : File) (env : Env) (o : Overrides) (s : Settings) (namespace : Json)
    (access secret_key : String)
    → get_settings (defaults f) env o ≡ ok s
    → o.minio_access_key ≡ none
    → o.minio_secret_key ≡ none
    → env "MINIO_ACCESS_KEY" ≡ some access
    → env "MINIO_SECRET_KEY" ≡ some secret_key
    → let values = child (secret s namespace) "data" in
      (b64decode (codes (text_of (child values "accesskey"))) ≡ utf8 access)
      × (b64decode (codes (text_of (child values "secretkey"))) ≡ utf8 secret_key)
secret-decodes f env o s namespace access secret_key h oa os ea es =
    let c = (get_settings_iff (defaults f) env o s).0 h in
    (decoded access (rw (oa, ea) at c.access_key), decoded secret_key (rw (os, es) at c.secret_key))
