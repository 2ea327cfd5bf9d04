-- ===== src/Controller/Inventory.antt =====
-- How a reader of the manifests sees them, apart from the code: the group under which metacontroller
-- reports an object, its name and namespace, and what its selectors, ports and references mean.
use kubefrog_kvmserver.Prelude.{
  ℕ, String, ◌<>◌, ◌≡◌, Bool, true, false, ◌&&◌, ◌||◌, not, List, [], ◌∷◌, any, all, All, count_by,
  ◌==◌, string_eq, nat_eq,
}
use kubefrog_kvmserver.Python.Errors.{ok, ◌>>=◌}
use kubefrog_kvmserver.Python.Json.{
  Json, Fields, end, field, obj, str, num, null, with_default, lookup, index, len, is_text,
}
use kubefrog_kvmserver.Python.Json.Literal.{elements}

-- A field of an object, `null` where there is none.
abbrev pub child : Json → String → Json
child (obj fs) k = with_default (lookup k fs) null
child _ k = null

abbrev pub text_of : Json → String
text_of (str s) = s
text_of _ = ""

-- The key under which metacontroller reports objects of this kind, as in `Deployment.apps/v1`.
abbrev pub group_of : Json → String
group_of r = text_of (child r "kind") <> "." <> text_of (child r "apiVersion")

abbrev pub count_group : String → List Json → ℕ
count_group g = count_by (λ r. group_of r == g)

-- The groups that the controllers watch.
abbrev pub groups : List String
groups =
    "Secret.v1" ∷ "ConfigMap.v1" ∷ "Deployment.apps/v1" ∷ "Service.v1"
    ∷ "DestinationRule.networking.istio.io/v1alpha3"
    ∷ "AuthorizationPolicy.security.istio.io/v1beta1" ∷ []

-- Every watched group is reported, with this many objects.
abbrev pub HasSizes : Json → (String → ℕ) → Type 0
HasSizes observed sizes = All (λ g. (index observed g >>= len) ≡ ok (sizes g)) groups

abbrev pub name_of : Json → String
name_of r = text_of (child (child r "metadata") "name")

abbrev pub namespace_of : Json → Json
namespace_of r = child (child r "metadata") "namespace"

-- No two objects have both the group and the name in common.
abbrev pub distinct : List Json → Bool
distinct [] = true
distinct (r ∷ rs) =
    not (any (λ q. group_of q == group_of r && name_of q == name_of r) rs) && distinct rs

abbrev pub fields_of : Json → Fields
fields_of (obj fs) = fs
fields_of _ = end

-- Every label that the selector asks for is there, with its value.
abbrev pub matches : Fields → Json → Bool
matches end labels = true
matches (field k v fs) labels = is_text (child labels k) (text_of v) && matches fs labels

abbrev pub is_empty : Fields → Bool
is_empty end = true
is_empty (field k v fs) = false

-- The selector asks for some label, and all that it asks for is there.
abbrev pub selects : Json → Json → Bool
selects selector labels = not (is_empty (fields_of selector)) && matches (fields_of selector) labels

abbrev pub spec : Json → Json
spec r = child r "spec"

abbrev pub pod_template : Json → Json
pod_template d = child (spec d) "template"

abbrev pub pod_labels : Json → Json
pod_labels d = child (child (pod_template d) "metadata") "labels"

abbrev pub containers : Json → List Json
containers d = elements (child (spec (pod_template d)) "containers")

-- Equality of two port numbers; what is no number is no port.
abbrev pub same_port : Json → Json → Bool
same_port (num m) (num n) = m == n
same_port _ _ = false

abbrev pub opens : Json → Json → Bool
opens d port =
    any (λ c. any (λ p. same_port (child p "containerPort") port) (elements (child c "ports")))
      (containers d)

abbrev pub is_kind : String → Json → Bool
is_kind kind r = is_text (child r "kind") kind

abbrev pub has_ports : List Json → Bool
has_ports [] = false
has_ports (p ∷ ps) = true

-- The Service has a selector and a port, and sends every port to an open one of the Deployment's pods.
abbrev pub reaches : Json → Json → Bool
reaches service d =
    is_kind "Deployment" d
    && selects (child (spec service) "selector") (pod_labels d)
    && has_ports (elements (child (spec service) "ports"))
    && all (λ p. opens d (child p "targetPort")) (elements (child (spec service) "ports"))

-- The Deployment has a selector, and it fits its own pods, as Kubernetes requires.
abbrev pub owns_pods : Json → Bool
owns_pods d = selects (child (child (spec d) "selector") "matchLabels") (pod_labels d)

-- Deployments own their pods, Services reach a Deployment, a policy selects the pods of one, and a
-- DestinationRule names a Service.
abbrev pub is_wired_in : List Json → Json → Bool
is_wired_in rs r =
    (not (is_kind "Deployment" r) || owns_pods r)
    && (not (is_kind "Service" r) || any (reaches r) rs)
    && (not (is_kind "AuthorizationPolicy" r)
        || any
            (λ d.
              is_kind "Deployment" d
              && selects (child (child (spec r) "selector") "matchLabels") (pod_labels d))
            rs)
    && (not (is_kind "DestinationRule" r)
        || any (λ q. is_kind "Service" q && is_text (child (spec r) "host") (name_of q)) rs)

abbrev pub is_wired : List Json → Bool
is_wired rs = all (is_wired_in rs) rs

-- A field with this key is there.
abbrev pub has_field : Fields → String → Bool
has_field end k = false
has_field (field j v fs) k = j == k || has_field fs k

-- A Secret of this name with this key stands in the list.
abbrev pub holds : List Json → String → String → Bool
holds rs name key =
    any (λ r. is_kind "Secret" r && name_of r == name && has_field (fields_of (child r "data")) key)
      rs

-- The `secretKeyRef` of an environment variable, `null` where it has another source.
abbrev pub secret_ref : Json → Json
secret_ref env = child (child env "valueFrom") "secretKeyRef"

-- Every secret that the environment of a container refers to is in the list, but those of an
-- external name.
abbrev pub refs_resolve : String → List Json → Bool
refs_resolve external rs =
    all
      (λ d.
        all
          (λ c.
            all
              (λ env.
                let name = text_of (child (secret_ref env) "name") in
                let key = text_of (child (secret_ref env) "key") in
                name == "" || name == external || holds rs name key)
              (elements (child c "env")))
          (containers d))
      rs

abbrev pub volumes : Json → List Json
volumes d = elements (child (spec (pod_template d)) "volumes")

-- A ConfigMap of this name stands in the list.
abbrev pub has_configmap : List Json → String → Bool
has_configmap rs name = any (λ r. is_kind "ConfigMap" r && name_of r == name) rs

-- Every volume that a container mounts is one of its pod, and every ConfigMap that a volume shows is
-- in the list, but one of an external name.
abbrev pub mounts_resolve : String → List Json → Bool
mounts_resolve external rs =
    all
      (λ d.
        all
          (λ c.
            all (λ m. any (λ v. is_text (child v "name") (text_of (child m "name"))) (volumes d))
              (elements (child c "volumeMounts")))
          (containers d)
        && all
            (λ v.
              let name = text_of (child (child v "configMap") "name") in
              name == "" || name == external || has_configmap rs name)
            (volumes d))
      rs
