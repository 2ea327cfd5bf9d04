-- ===== src/Kubernetes.antt =====
-- The types of the API of Kubernetes and Istio, for the kinds that the controllers attach, apart from
-- the code: which fields an object may have, which it must have, and what stands in them. Of a type
-- the fields are listed that some controller sets, and every field that is required.
pub mod Schemas
use kubefrog_kvmserver.Prelude.{
  String, Bool, true, false, ◌&&◌, List, [], ◌∷◌, any, ◌==◌, string_eq,
}
use kubefrog_kvmserver.Python.Json.{Json}
use kubefrog_kvmserver.Controller.Inventory.{group_of}
use kubefrog_kvmserver.Kubernetes.Schemas.{
  Schema, Members, text, number, truth, map_of, list_of, object_of, none_left, required, optional,
  validate,
}

abbrev labels : Schema
labels = map_of text

-- Of a namespaced object.
abbrev object_meta : Schema
object_meta = object_of (
    required "name" text (
      required "namespace" text
        (optional "labels" labels (optional "annotations" labels none_left))))

-- Any kind, with these members besides its kind, version and metadata.
abbrev kind_with : Members → Schema
kind_with members =
    object_of
      (required "apiVersion" text (required "kind" text (required "metadata" object_meta members)))

-- ConfigMap and Secret: the values of a Secret are the base64 of bytes, as texts.
abbrev data_object : Schema
data_object = kind_with (optional "data" (map_of text) none_left)

abbrev container_port : Schema
container_port = object_of (required "containerPort" number none_left)

abbrev secret_key_selector : Schema
secret_key_selector = object_of (required "key" text (optional "name" text none_left))

abbrev field_selector : Schema
field_selector = object_of (required "fieldPath" text (optional "apiVersion" text none_left))

abbrev env_source : Schema
env_source =
    object_of
      (optional "secretKeyRef" secret_key_selector (optional "fieldRef" field_selector none_left))

abbrev env_var : Schema
env_var =
    object_of
      (required "name" text (optional "value" text (optional "valueFrom" env_source none_left)))

abbrev volume_mount : Schema
volume_mount = object_of (
    required "name" text
      (required "mountPath" text (optional "subPath" text (optional "readOnly" truth none_left))))

abbrev volume : Schema
volume = object_of (
    required "name" text
      (optional "configMap" (object_of (optional "name" text none_left)) none_left))

-- Quantities by the name of their resource.
abbrev requirements : Schema
requirements =
    object_of (optional "requests" (map_of text) (optional "limits" (map_of text) none_left))

abbrev container : Schema
container = object_of (
    required "name" text (
      optional "image" text (
        optional "imagePullPolicy" text (
          optional "ports" (list_of container_port) (
            optional "env" (list_of env_var) (
              optional "resources" requirements
                (optional "volumeMounts" (list_of volume_mount) none_left)))))))

abbrev pod_spec : Schema
pod_spec = object_of (
    required "containers" (list_of container)
      (optional "serviceAccountName" text (optional "volumes" (list_of volume) none_left)))

-- A selector of labels.
abbrev label_selector : Schema
label_selector = object_of (optional "matchLabels" labels none_left)

abbrev pod_template : Schema
pod_template = object_of (
    required "metadata"
      (object_of (optional "labels" labels (optional "annotations" labels none_left)))
      (required "spec" pod_spec none_left))

abbrev deployment : Schema
deployment = kind_with (
    required "spec"
      (object_of (required "selector" label_selector (required "template" pod_template none_left)))
      none_left)

abbrev service_port : Schema
service_port = object_of (
    optional "name" text
      (required "port" number (optional "protocol" text (optional "targetPort" number none_left))))

abbrev service : Schema
service = kind_with (
    required "spec"
      (object_of (optional "ports" (list_of service_port) (optional "selector" labels none_left)))
      none_left)

abbrev destination_rule : Schema
destination_rule = kind_with (
    required "spec"
      (object_of (
        required "host" text (
          optional "trafficPolicy"
            (object_of (optional "tls" (object_of (required "mode" text none_left)) none_left))
            none_left)))
      none_left)

abbrev rule_source : Schema
rule_source =
    object_of
      (optional "source" (object_of (optional "principals" (list_of text) none_left)) none_left)

abbrev authorization_policy : Schema
authorization_policy = kind_with (
    required "spec"
      (object_of (
        optional "selector" label_selector (
          optional "rules" (list_of (object_of (optional "from" (list_of rule_source) none_left)))
            none_left)))
      none_left)

-- The schema of each group.
abbrev kinds : List (String × Schema)
kinds =
    ("Secret.v1", data_object)
    ∷ ("ConfigMap.v1", data_object)
    ∷ ("Deployment.apps/v1", deployment)
    ∷ ("Service.v1", service)
    ∷ ("DestinationRule.networking.istio.io/v1alpha3", destination_rule)
    ∷ ("AuthorizationPolicy.security.istio.io/v1beta1", authorization_policy)
    ∷ []

-- An object of one of these groups, of its type.
unfoldable pub is_valid : Json → Bool
unfolding validate
is_valid r = any (λ (g, schema). group_of r == g && validate schema r) kinds
