-- ===== src/Controller/Sync.antt =====
-- The body of `Controller.sync`, for all four files.
use kubefrog_kvmserver.Prelude.{
  ℕ, String, Bool, true, false, Option, none, some, List, [], ◌∷◌, ◌++◌, ◌==◌, nat_eq, string_eq,
  if◌then◌else◌,
}
use kubefrog_kvmserver.Python.Errors.{Result, ok, err, truthy, ◌>>=◌ as ◌|>◌}
use kubefrog_kvmserver.Python.Exec.{Exec, pure, lift, ◌>>=◌, ◌>>◌}
use kubefrog_kvmserver.Python.Json.{Json, str, null, get, index, len, is_text}
use kubefrog_kvmserver.Python.Json.Literal.{dict, list}
use kubefrog_kvmserver.Controller.Settings.{Settings}
use kubefrog_kvmserver.Controller.Manifest.{minio_secret}

-- What differs between the files: the names of three fields in the exchange with metacontroller,
-- the launcher's ConfigMap (from the namespace and the pipeline root), and the list of attachments
-- between it and the secret.
pub record Variant : Type 0 where
  pub object_key : String
  pub observed_key : String
  pub reply_key : String
  pub launcher_configmap : Json → String → Json
  pub workloads : Settings → Json → List Json

-- A `print` of a heading and of `json.dumps(value, sort_keys=True)`, kept as the value.
pub record Line : Type 0 where
  pub heading : String
  pub value : Json

abbrev pub print : String → Json → Exec (List Line) (Unit {0})
print heading value printed = (ok tt, printed ++ record { heading = heading; value = value } ∷ [])

-- `a and b`: `b` is evaluated only if `a` is true.
abbrev pub and_then : Result Bool → Result Bool → Result Bool
and_then (ok true) r = r
and_then (ok false) r = ok false
and_then (err e) r = err e

-- `len(observed[group]) == n`
unfoldable pub group_has : Json → String → ℕ → Result Bool
group_has observed group n = (index observed group |> len) |> λ k. ok (k == n)

-- The conjunction behind `kubeflow-pipelines-ready`.
unfoldable pub is_ready : Json → ℕ → Result Bool
is_ready observed configmaps = and_then (group_has observed "Secret.v1" 1) (
    and_then (group_has observed "ConfigMap.v1" configmaps) (
      and_then (group_has observed "Deployment.apps/v1" 2) (
        and_then (group_has observed "Service.v1" 2) (
          and_then (group_has observed "DestinationRule.networking.istio.io/v1alpha3" 1)
            (group_has observed "AuthorizationPolicy.security.istio.io/v1beta1" 1)))))

-- {"kubeflow-pipelines-ready": ready and "True" or "False"}
abbrev pub status : Bool → Json
status ready = dict (("kubeflow-pipelines-ready", if ready then str "True" else str "False") ∷ [])

abbrev pub reply : Variant → Json → List Json → Json
reply v desired_status desired =
    dict (("status", desired_status) ∷ (v.reply_key, list desired) ∷ [])

abbrev pub configmap_count : Option String → ℕ
configmap_count root = if truthy root then 2 else 1

-- The launcher's ConfigMap, if a pipeline root is set.
abbrev pub launcher : Variant → Option String → Json → List Json
launcher v none namespace = []
launcher v (some root) namespace =
    if root == "" then [] else v.launcher_configmap namespace root ∷ []

-- `desired_resources` when it is printed.
abbrev pub public_resources : Variant → Settings → Json → List Json
public_resources v s namespace =
    launcher v s.kfp_default_pipeline_root namespace ++ v.workloads s namespace

abbrev pub secret : Settings → Json → Json
secret s namespace = minio_secret s.minio_access_key s.minio_secret_key namespace

-- `desired_resources` when it is returned.
abbrev pub desired_resources : Variant → Settings → Json → List Json
desired_resources v s namespace = public_resources v s namespace ++ secret s namespace ∷ []

-- `sync` past the test of the label.
unfoldable pub sync_enabled : Variant → Settings → Json → Json → Json → Exec (List Line) Json
sync_enabled v s parent observed namespace = do
  ready ← lift (is_ready observed (configmap_count s.kfp_default_pipeline_root))
  print "Received request:\n" parent
  print "Desired resources except secrets:\n" (list (public_resources v s namespace))
  pure (reply v (status ready) (desired_resources v s namespace))

-- `parent.get("metadata", {}).get(key, default)`
abbrev pub metadata_field : Json → String → Json → Result Json
metadata_field parent key default = get parent "metadata" (dict []) |> λ m. get m key default

unfoldable pub parent_name : Json → Result Json
parent_name parent = metadata_field parent "name" null

unfoldable pub parent_label : Json → Result Json
parent_label parent =
    metadata_field parent "labels" (dict []) |> λ l. get l "pipelines.kubeflow.org/enabled" null

unfoldable pub sync : Variant → Settings → Json → Json → Exec (List Line) Json
sync v s parent observed = do
  namespace ← lift (parent_name parent)
  pipeline_enabled ← lift (parent_label parent)
  if is_text pipeline_enabled "true"
      then sync_enabled v s parent observed namespace
      else pure (reply v (dict []) [])
