-- ===== src/Tests/Settings.antt =====
-- Environments of the controllers.
use kubefrog_kvmserver.Prelude.{◌≡◌, ◌↔◌, refl, false, none, some, ◌==◌, string_eq, if◌then◌else◌}
use kubefrog_kvmserver.Python.Errors.{ok, ◌>>=◌}
use kubefrog_kvmserver.Python.Json.{str}
use kubefrog_kvmserver.Python.Numeral.{pos, codes}
use kubefrog_kvmserver.Python.Base64.{utf8, b64encode, digit}
use kubefrog_kvmserver.Python.Base64.Laws.{b64decode}
use kubefrog_kvmserver.Controller.Settings.{
  Env, no_overrides, Settings, get_settings, assemble, Server, server_factory,
}
use kubefrog_kvmserver.Controller.Settings.Precedence.{IsChosen, get_settings_iff}
use kubefrog_kvmserver.Controller.Sync.{secret}
use kubefrog_kvmserver.Controller.Inventory.{child, text_of}
use kubefrog_kvmserver.SyncNew
use kubefrog_kvmserver.Family.{new, defaults}
use kubefrog_kvmserver.Family.Startup.{main-new_iff, secret-decodes}

abbrev cluster : Env
cluster name =
    if name == "KFP_VERSION"
    then some "1.8.5"
    else if name == "FRONTEND_TAG"
    then some ""
    else if name == "MINIO_ACCESS_KEY"
    then some "minio"
    else if name == "MINIO_SECRET_KEY"
    then some "minio123"
    else none

abbrev read : Settings
read = record {
  controller_port = "8080";
  visualization_server_image = "gcr.io/ml-pipeline/visualization-server";
  frontend_image = "gcr.io/ml-pipeline/frontend";
  visualization_server_tag = "1.8.5";
  frontend_tag = "1.8.5";
  disable_istio_sidecar = false;
  minio_access_key = "bWluaW8=";
  minio_secret_key = "bWluaW8xMjM=";
  kfp_default_pipeline_root = none;
}

cluster-get_settings : get_settings (defaults new) cluster no_overrides ≡ ok read
unfolding get_settings assemble b64encode utf8 digit
cluster-get_settings = refl

get_settings_iff_example :
    (get_settings (defaults new) cluster no_overrides ≡ ok read)
    ↔ IsChosen (defaults new) cluster no_overrides read
get_settings_iff_example = get_settings_iff (defaults new) cluster no_overrides read

secret-decodes_example :
    let values = child (secret read (str "team-a")) "data" in
    (b64decode (codes (text_of (child values "accesskey"))) ≡ utf8 "minio")
    × (b64decode (codes (text_of (child values "secretkey"))) ≡ utf8 "minio123")
secret-decodes_example =
    secret-decodes new cluster no_overrides read (str "team-a") "minio" "minio123"
      cluster-get_settings refl refl refl refl

abbrev server : Server
server = record { url = ""; port = pos 8080; settings = read }

main-new_iff_example :
    (SyncNew.main cluster ≡ ok server)
    ↔ ((SyncNew.get_settings_from_env cluster no_overrides >>= server_factory) ≡ ok server)
main-new_iff_example = main-new_iff cluster server
