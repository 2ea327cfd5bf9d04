-- ===== src/Family/Manifests.antt =====
-- The desired resources of the four controllers fit together.
use kubefrog_kvmserver.Prelude.{String, ◌≡◌, refl, true, false, List, ◌∷◌, All}
use kubefrog_kvmserver.Python.Json.{Json}
use kubefrog_kvmserver.Controller.Settings.{Settings}
use kubefrog_kvmserver.Controller.Sync.{desired_resources}
use kubefrog_kvmserver.Controller.Inventory.{
  namespace_of, distinct, is_wired, has_configmap, mounts_resolve,
}
use kubefrog_kvmserver.Controller.Desired.{kept, desired_cases}
use kubefrog_kvmserver.Family.{File, current, debug_frontend, old, new, variant}

abbrev InNamespace : Json → List Json → Type 0
InNamespace namespace rs = All (λ r. namespace_of r ≡ namespace) rs

kept-InNamespace :
    (f : File) (s : Settings) (namespace : Json)
    → InNamespace namespace (kept (variant f) s namespace)
kept-InNamespace current s namespace = assumption (refl, tt)
kept-InNamespace _ s namespace = assumption (refl, tt)

launcher-InNamespace :
    (f : File) (namespace : Json) (root : String)
    → namespace_of ((variant f).launcher_configmap namespace root) ≡ namespace
launcher-InNamespace current namespace root = refl
launcher-InNamespace _ namespace root = refl

-- Every desired resource of each of the four files is put into the namespace that `sync` was called
-- for.
pub desired_resources-InNamespace :
    (f : File) (s : Settings) (namespace : Json)
    → All (λ r. namespace_of r ≡ namespace) (desired_resources (variant f) s namespace)
desired_resources-InNamespace f s namespace =
    desired_cases (InNamespace namespace) (variant f) s namespace (kept-InNamespace f s namespace)
      (λ root. (launcher-InNamespace f namespace root, kept-InNamespace f s namespace))

kept-distinct :
    (f : File) (s : Settings) (namespace : Json) → distinct (kept (variant f) s namespace) ≡ true
kept-distinct current s namespace = refl
kept-distinct _ s namespace = refl

launcher-distinct :
    (f : File) (s : Settings) (namespace : Json) (root : String)
    → distinct ((variant f).launcher_configmap namespace root ∷ kept (variant f) s namespace) ≡ true
launcher-distinct current s namespace root = refl
launcher-distinct _ s namespace root = refl

-- No two desired resources of a file have both the group and the name in common.
pub desired_resources-distinct :
    (f : File) (s : Settings) (namespace : Json)
    → distinct (desired_resources (variant f) s namespace) ≡ true
desired_resources-distinct f s namespace =
    desired_cases (λ rs. distinct rs ≡ true) (variant f) s namespace (kept-distinct f s namespace)
      (launcher-distinct f s namespace)

kept-is_wired :
    (f : File) (s : Settings) (namespace : Json) → is_wired (kept (variant f) s namespace) ≡ true
kept-is_wired current s namespace = refl
kept-is_wired _ s namespace = refl

launcher-is_wired :
    (f : File) (s : Settings) (namespace : Json) (root : String)
    → is_wired ((variant f).launcher_configmap namespace root ∷ kept (variant f) s namespace) ≡ true
launcher-is_wired current s namespace root = refl
launcher-is_wired _ s namespace root = refl

-- In the desired resources of each file, every Deployment selects its own pods, every Service and
-- the AuthorizationPolicy select the pods of a Deployment, all with a selector that is not empty; each
-- Service has a port and sends its ports to ports that this Deployment opens, and the DestinationRule
-- names one of the Services.
pub desired_resources-is_wired :
    (f : File) (s : Settings) (namespace : Json)
    → is_wired (desired_resources (variant f) s namespace) ≡ true
desired_resources-is_wired f s namespace =
    desired_cases (λ rs. is_wired rs ≡ true) (variant f) s namespace (kept-is_wired f s namespace)
      (launcher-is_wired f s namespace)

-- The secret that a file refers to and does not create.
abbrev pub external_secret : File → String
external_secret current = ""
external_secret debug_frontend = ""
external_secret old = "aws-secret"
external_secret new = "aws-secret"

-- The ConfigMap that a file mounts and does not create.
abbrev pub external_configmap : File → String
external_configmap debug_frontend = "k8s-server-patches"
external_configmap _ = ""

-- What is claimed of the volumes.
abbrev Mounted : File → List Json → Type 0
Mounted f rs =
    (mounts_resolve (external_configmap f) rs ≡ true)
    × (has_configmap rs (external_configmap f) ≡ false)
