-- ===== src/Tests/Profile.antt =====
-- Requests to the four profile controllers.
use kubefrog_kvmserver.Family.Convergence.{sync-converges}
use kubefrog_kvmserver.Controller.Http.Bounds.{Leaves, read_body-Leaves}
use kubefrog_kvmserver.Controller.Http.{int_header}
use kubefrog_kvmserver.Python.Numeral.{pos}
use kubefrog_kvmserver.Prelude.{
  ℕ, String, ◌≡◌, ◌≢◌, ◌↔◌, refl, true, false, none, some, List, [], ◌∷◌, All, ◌==◌, string_eq,
  if◌then◌else◌, ◌||◌,
}
use kubefrog_kvmserver.Python.Errors.{Result, ok, err, key_error, type_error, value_error}
use kubefrog_kvmserver.Python.Numeral.{int}
use kubefrog_kvmserver.Python.Json.{Json, str, null, is_text}
use kubefrog_kvmserver.Python.Json.Literal.{dict}
use kubefrog_kvmserver.Controller.Settings.{Settings}
use kubefrog_kvmserver.Controller.Sync
use kubefrog_kvmserver.Controller.Sync.{
  Line, reply, status, desired_resources, parent_name, parent_label, is_ready, group_has,
  sync_enabled,
}
use kubefrog_kvmserver.Controller.Http
use kubefrog_kvmserver.Controller.Http.{Request, read_body, json_response}
use kubefrog_kvmserver.Controller.Inventory.{namespace_of, is_wired}
use kubefrog_kvmserver.Family.{current, old, new, variant, sync}
use kubefrog_kvmserver.Family.Status.{same_sizes}
use kubefrog_kvmserver.Family.Manifests.{desired_resources-InNamespace, desired_resources-is_wired}
use kubefrog_kvmserver.Family.Replies.{
  with_keys, attachments_of, sync-prints_no_secret, sync-lists_iff_enabled,
}
use kubefrog_kvmserver.Family.Webhook.{do_post-raises_silently}

abbrev pub team : Settings
team = record {
  controller_port = "8080";
  visualization_server_image = "gcr.io/ml-pipeline/visualization-server";
  frontend_image = "gcr.io/ml-pipeline/frontend";
  visualization_server_tag = "1.8.5";
  frontend_tag = "1.8.5";
  disable_istio_sidecar = false;
  minio_access_key = "bWluaW8=";
  minio_secret_key = "bWluaW8xMjM=";
  kfp_default_pipeline_root = some "minio://mlpipeline";
}

abbrev pub namespace : Json
namespace = str "team-a"

abbrev pub parent : Json
parent = dict (
    (
      "metadata",
      dict (
          ("name", str "team-a")
          ∷ ("labels", dict (("pipelines.kubeflow.org/enabled", str "true") ∷ []))
          ∷ []),
    )
    ∷ [])

abbrev one_object : Json
one_object = dict (("first", null) ∷ [])

abbrev two_objects : Json
two_objects = dict (("first", null) ∷ ("second", null) ∷ [])

abbrev pub observed : Json
observed = dict (
    ("Secret.v1", one_object)
    ∷ ("ConfigMap.v1", two_objects)
    ∷ ("Deployment.apps/v1", two_objects)
    ∷ ("Service.v1", two_objects)
    ∷ ("DestinationRule.networking.istio.io/v1alpha3", one_object)
    ∷ ("AuthorizationPolicy.security.istio.io/v1beta1", one_object)
    ∷ [])

abbrev sizes : String → ℕ
sizes g = if g == "ConfigMap.v1" || g == "Deployment.apps/v1" || g == "Service.v1" then 2 else 1

pub team-parent_name : parent_name parent ≡ ok namespace
unfolding parent_name
team-parent_name = refl

pub team-parent_label : parent_label parent ≡ ok (str "true")
unfolding parent_label
team-parent_label = refl

-- The reported sizes of that request are those of the desired resources.
team_is_ready : same_sizes sizes (desired_resources (variant current) team namespace) ≡ true
team_is_ready = refl

desired_resources-InNamespace_example :
    All (λ r. namespace_of r ≡ namespace) (desired_resources (variant old) team namespace)
desired_resources-InNamespace_example = desired_resources-InNamespace old team namespace

desired_resources-is_wired_example :
    is_wired (desired_resources (variant current) team namespace) ≡ true
desired_resources-is_wired_example = desired_resources-is_wired current team namespace

sync-prints_no_secret_example :
    (sync new (with_keys team "YQ==" "Yg==") parent observed []).1
    ≡ (sync new team parent observed []).1
sync-prints_no_secret_example = sync-prints_no_secret new team "YQ==" "Yg==" parent observed []

abbrev pub answered : Json
answered =
    reply (variant current) (status true) (desired_resources (variant current) team namespace)

pub team-answered : (sync current team parent observed []).0 ≡ ok answered
unfolding sync Sync.sync parent_name parent_label sync_enabled is_ready group_has
team-answered = refl

sync-lists_iff_enabled_example :
    (attachments_of current answered ≢ []) ↔ (is_text (str "true") "true" ≡ true)
sync-lists_iff_enabled_example =
    sync-lists_iff_enabled current team parent observed (str "true") answered [] team-parent_label
      team-answered

unreported-sync : (sync old team parent (dict []) []).0 ≡ err (key_error "Secret.v1")
unfolding sync Sync.sync parent_name parent_label sync_enabled is_ready group_has
unreported-sync = refl

-- Only the secrets are reported, and there is none.
abbrev no_secret : Json
no_secret = dict (("Secret.v1", dict []) ∷ [])

abbrev loads : List ℕ → Result Json
loads [] = err value_error
loads (c ∷ rest) = ok (dict (("object", parent) ∷ ("attachments", observed) ∷ []))

abbrev request : Request
request = record { content_length = some "2"; body = b'{' ∷ b'}' ∷ [] }

request-do_post :
    (Http.do_post loads (variant current) team request []).0 ≡ ok (json_response answered)
unfolding Http.do_post sync Sync.sync parent_name parent_label sync_enabled is_ready group_has int
request-do_post = refl

-- A request that is read, and for which `sync` raises.
abbrev empty_report : List ℕ → Result Json
empty_report bytes = ok (dict (("object", parent) ∷ ("attachments", dict []) ∷ []))

empty_report-do_post :
    (Http.do_post empty_report (variant current) team request []).0 ≡ err (key_error "Secret.v1")
unfolding Http.do_post sync Sync.sync parent_name parent_label sync_enabled is_ready group_has int
empty_report-do_post = refl

do_post-raises_silently_example :
    (Http.do_post empty_report (variant current) team request []).1 ≡ []
do_post-raises_silently_example =
    do_post-raises_silently empty_report current team request [] (key_error "Secret.v1")
      empty_report-do_post

abbrev unsized : Request
unsized = record { content_length = none; body = [] }

unsized-do_post : (Http.do_post loads (variant new) team unsized []).0 ≡ err type_error
unfolding Http.do_post
unsized-do_post = refl

abbrev first_answer : Json
first_answer =
    reply (variant current) (status false) (desired_resources (variant current) team namespace)

-- Nothing is there at first.
abbrev nothing_yet : Json
nothing_yet = dict (("Secret.v1", dict []) ∷ [])

first_sync : (sync current team parent nothing_yet []).0 ≡ ok first_answer
unfolding sync Sync.sync parent_name parent_label sync_enabled is_ready group_has
first_sync = refl

sync-converges_example :
    (sync current team parent observed []).0
    ≡ ok (reply (variant current) (status true) (attachments_of current first_answer))
sync-converges_example =
    sync-converges current team parent nothing_yet observed namespace first_answer [] []
      team-parent_name team-parent_label first_sync
      (refl, (refl, (refl, (refl, (refl, (refl, tt))))))

-- More bytes than the header says.
abbrev long_request : Request
long_request = record { content_length = some "2"; body = b'{' ∷ b'}' ∷ b'!' ∷ [] }

long_request-length : int_header long_request.content_length ≡ ok (pos 2)
unfolding int
long_request-length = refl

long_request-body : read_body long_request ≡ ok (b'{' ∷ b'}' ∷ [])
unfolding int
long_request-body = refl

read_body-Leaves_example : Leaves 2 (b'{' ∷ b'}' ∷ b'!' ∷ []) (b'{' ∷ b'}' ∷ [])
read_body-Leaves_example =
    read_body-Leaves long_request 2 (b'{' ∷ b'}' ∷ []) long_request-length long_request-body
