-- ===== src/SyncDebugFrontend.antt =====
-- kubeflow/pipelines/sync-debug-frontend.py: the composite controller with a patched frontend.
use kubefrog_kvmserver.Prelude.{ℕ, String, true, List, [], ◌∷◌, ◌++◌}
use kubefrog_kvmserver.Python.Errors.{Result, ◌>>=◌}
use kubefrog_kvmserver.Python.Exec.{Exec}
use kubefrog_kvmserver.Python.Json.{Json, str, bool}
use kubefrog_kvmserver.Python.Json.Literal.{dict, list}
use kubefrog_kvmserver.Controller.Settings.{
  Env, Overrides, no_overrides, Settings, Defaults, get_settings, Server, server_factory,
}
use kubefrog_kvmserver.Controller.Manifest.{
  metadata_grpc_configmap, deployment, resources, visualization_container, ui_artifact_container,
  minio_envs, visualization_destination_rule, visualization_authorization_policy,
  visualization_service, ui_artifact_service,
}
use kubefrog_kvmserver.Controller.Sync
use kubefrog_kvmserver.Controller.Sync.{Variant, Line}
use kubefrog_kvmserver.Controller.Http
use kubefrog_kvmserver.Controller.Http.{Request, Response}

abbrev pub service_account_name : String
service_account_name = "default-editor"

abbrev pub launcher_configmap : Json → String → Json
launcher_configmap namespace root = dict (
    ("apiVersion", str "v1")
    ∷ ("kind", str "ConfigMap")
    ∷ ("metadata", dict (("name", str "kfp-launcher") ∷ ("namespace", namespace) ∷ []))
    ∷ ("data", dict (("defaultPipelineRoot", str root) ∷ []))
    ∷ [])

abbrev pub visualization_deployment : Settings → Json → Json
visualization_deployment s namespace = deployment "ml-pipeline-visualizationserver" s namespace (
    dict (
      (
        "containers",
        list (
            dict (
              visualization_container s ++ ("resources", resources "50m" "200Mi" "500m" "1Gi") ∷ [])
            ∷ []),
      )
      ∷ ("serviceAccountName", str service_account_name)
      ∷ []))

-- FRONTEND_SERVER_NAMESPACE
abbrev pub frontend_namespace_env : Json
frontend_namespace_env = dict (
    ("name", str "FRONTEND_SERVER_NAMESPACE")
    ∷ ("valueFrom", dict (("fieldRef", dict (("fieldPath", str "metadata.namespace") ∷ [])) ∷ []))
    ∷ [])

abbrev pub patch_mount : Json
patch_mount = dict (
    ("mountPath", str "/server/dist/k8s-helper.js")
    ∷ ("name", str "k8s-server-patch")
    ∷ ("subPath", str "k8s-helper.js")
    ∷ ("readOnly", bool true)
    ∷ [])

abbrev pub patch_volume : Json
patch_volume = dict (
    ("name", str "k8s-server-patch")
    ∷ ("configMap", dict (("name", str "k8s-server-patches") ∷ []))
    ∷ [])

abbrev pub ui_artifact_deployment : Settings → Json → Json
ui_artifact_deployment s namespace = deployment "ml-pipeline-ui-artifact" s namespace (
    dict (
      (
        "containers",
        list (
            dict (
              ui_artifact_container s
              ++ ("env", list (minio_envs ++ frontend_namespace_env ∷ []))
                ∷ ("resources", resources "10m" "70Mi" "100m" "500Mi")
                ∷ ("volumeMounts", list (patch_mount ∷ []))
                ∷ [])
            ∷ []),
      )
      ∷ ("serviceAccountName", str service_account_name)
      ∷ ("volumes", list (patch_volume ∷ []))
      ∷ []))

-- The attachments between the launcher's ConfigMap and the secret, in order.
abbrev pub workloads : Settings → Json → List Json
workloads s namespace =
    metadata_grpc_configmap namespace
    ∷ visualization_deployment s namespace
    ∷ visualization_destination_rule namespace
    ∷ visualization_authorization_policy namespace
    ∷ visualization_service namespace
    ∷ ui_artifact_deployment s namespace
    ∷ ui_artifact_service namespace
    ∷ []

abbrev pub variant : Variant
variant = record {
  object_key = "parent";
  observed_key = "children";
  reply_key = "children";
  launcher_configmap = launcher_configmap;
  workloads = workloads;
}

abbrev pub defaults : Defaults
defaults = record {
  visualization_server_image = "ghcr.io/kubeflow/kfp-visualization-server";
  frontend_image = "ghcr.io/kubeflow/kfp-frontend";
}

unfoldable pub get_settings_from_env : Env → Overrides → Result Settings
unfolding get_settings
get_settings_from_env = get_settings defaults

unfoldable pub sync : Settings → Json → Json → Exec (List Line) Json
unfolding Sync.sync
sync = Sync.sync variant

-- `do_POST`; `loads` is `json.loads`.
unfoldable pub do_post : (List ℕ → Result Json) → Settings → Request → Exec (List Line) Response
unfolding Http.do_post sync
do_post loads = Http.do_post loads variant

-- `main` up to the server that it starts.
unfoldable pub main : Env → Result Server
unfolding get_settings_from_env server_factory
main env = do settings ← get_settings_from_env env no_overrides; server_factory settings
