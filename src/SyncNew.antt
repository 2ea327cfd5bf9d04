-- ===== src/SyncNew.antt =====
-- kubeflow/pipelines/sync_new.py: as sync_old.py, with the request of a decorator controller.
use kubefrog_kvmserver.Prelude.{ℕ, String, some, List, [], ◌∷◌, ◌++◌}
use kubefrog_kvmserver.Python.Errors.{Result, ◌>>=◌}
use kubefrog_kvmserver.Python.Exec.{Exec}
use kubefrog_kvmserver.Python.Json.{Json, str}
use kubefrog_kvmserver.Python.Json.Literal.{dict, list}
use kubefrog_kvmserver.Controller.Settings.{
  Env, Overrides, no_overrides, Settings, Defaults, get_settings, Server, server_factory,
}
use kubefrog_kvmserver.Controller.Manifest.{
  metadata_grpc_configmap, deployment, resources, visualization_container, ui_artifact_container,
  minio_envs, visualization_destination_rule, visualization_authorization_policy,
  visualization_service, ui_artifact_service,
}
use kubefrog_kvmserver.Controller.Sync
use kubefrog_kvmserver.Controller.Sync.{Variant, Line}
use kubefrog_kvmserver.Controller.Http
use kubefrog_kvmserver.Controller.Http.{Request, Response}

abbrev pub aws_env : String → Json
aws_env key = dict (
    ("name", str key)
    ∷ (
      "valueFrom",
      dict (("secretKeyRef", dict (("name", str "aws-secret") ∷ ("key", str key) ∷ [])) ∷ []),
    )
    ∷ [])

abbrev pub aws_region : String → Json
aws_region region = dict (("name", str "AWS_REGION") ∷ ("value", str region) ∷ [])

abbrev pub visualization_env : List Json
visualization_env =
    aws_env "AWS_ACCESS_KEY_ID"
    ∷ aws_env "AWS_SECRET_ACCESS_KEY"
    ∷ aws_env "S3_USE_HTTPS"
    ∷ aws_env "S3_VERIFY_SSL"
    ∷ aws_env "S3_ENDPOINT"
    ∷ aws_region "local"
    ∷ []

abbrev pub ui_artifact_env : List Json
ui_artifact_env =
    minio_envs
    ++ aws_env "AWS_ACCESS_KEY_ID"
      ∷ aws_env "AWS_SECRET_ACCESS_KEY"
      ∷ aws_env "S3_USE_HTTPS"
      ∷ aws_env "S3_VERIFY_SSL"
      ∷ aws_env "S3_ENDPOINT"
      ∷ aws_region "local"
      ∷ []

abbrev pub launcher_configmap : Json → String → Json
launcher_configmap namespace root = dict (
    ("apiVersion", str "v1")
    ∷ ("kind", str "ConfigMap")
    ∷ ("metadata", dict (("name", str "kfp-launcher") ∷ ("namespace", namespace) ∷ []))
    ∷ ("data", dict (("defaultPipelineRoot", str root) ∷ []))
    ∷ [])

abbrev pub visualization_deployment : Settings → Json → Json
visualization_deployment s namespace = deployment "ml-pipeline-visualizationserver" s namespace (
    dict (
      (
        "containers",
        list (
            dict (
              visualization_container s
              ++ ("env", list visualization_env)
                ∷ ("resources", resources "50m" "200Mi" "500m" "1Gi")
                ∷ [])
            ∷ []),
      )
      ∷ ("serviceAccountName", str "default-editor")
      ∷ []))

abbrev pub ui_artifact_deployment : Settings → Json → Json
ui_artifact_deployment s namespace = deployment "ml-pipeline-ui-artifact" s namespace (
    dict (
      (
        "containers",
        list (
            dict (
              ui_artifact_container s
              ++ ("env", list (ui_artifact_env))
                ∷ ("resources", resources "10m" "70Mi" "100m" "500Mi")
                ∷ [])
            ∷ []),
      )
      ∷ ("serviceAccountName", str "default-editor")
      ∷ []))

-- The attachments between the launcher's ConfigMap and the secret, in order.
abbrev pub workloads : Settings → Json → List Json
workloads s namespace =
    metadata_grpc_configmap namespace
    ∷ visualization_deployment s namespace
    ∷ visualization_destination_rule namespace
    ∷ visualization_authorization_policy namespace
    ∷ visualization_service namespace
    ∷ ui_artifact_deployment s namespace
    ∷ ui_artifact_service namespace
    ∷ []

abbrev pub variant : Variant
variant = record {
  object_key = "object";
  observed_key = "attachments";
  reply_key = "children";
  launcher_configmap = launcher_configmap;
  workloads = workloads;
}

abbrev pub defaults : Defaults
defaults = record {
  visualization_server_image = "gcr.io/ml-pipeline/visualization-server";
  frontend_image = "gcr.io/ml-pipeline/frontend";
}

unfoldable pub get_settings_from_env : Env → Overrides → Result Settings
unfolding get_settings
get_settings_from_env = get_settings defaults

unfoldable pub sync : Settings → Json → Json → Exec (List Line) Json
unfolding Sync.sync
sync = Sync.sync variant

-- `do_POST`; `loads` is `json.loads`.
unfoldable pub do_post : (List ℕ → Result Json) → Settings → Request → Exec (List Line) Response
unfolding Http.do_post sync
do_post loads = Http.do_post loads variant

-- `main` up to the server that it starts. The first settings are read and dropped.
unfoldable pub main : Env → Result Server
unfolding get_settings_from_env server_factory
main env = do
  dropped ← get_settings_from_env env (record no_overrides {
    visualization_server_tag = some "1.7.1-debug";
    visualization_server_image = some "syno.registry:45000/ml-pipeline/visualization-server";
  })
  settings ← get_settings_from_env env no_overrides
  server_factory settings
