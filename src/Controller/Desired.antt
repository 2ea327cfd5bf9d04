-- ===== src/Controller/Desired.antt =====
-- The list of desired resources, with the launcher's ConfigMap and without it.
use kubefrog_kvmserver.Prelude.{
  String, ◌≡◌, refl, ◌⊎◌, inl, inr, true, false, Option, none, some, List, [], ◌∷◌, ◌++◌, ◌==◌,
  nat_eq, string_eq, Bool-cases,
}
use kubefrog_kvmserver.Python.Errors.{truthy}
use kubefrog_kvmserver.Python.Json.{Json}
use kubefrog_kvmserver.Controller.Settings.{Settings}
use kubefrog_kvmserver.Controller.Sync.{Variant, launcher, desired_resources, secret}

-- Either there is no pipeline root, and no launcher, or there is both.
pub launcher_cases :
    (v : Variant) (root : Option String) (namespace : Json)
    → (launcher v root namespace ≡ []) × (truthy root ≡ false)
      ⊎ ((r : String) × (launcher v root namespace ≡ v.launcher_configmap namespace r ∷ [])
          × (truthy root ≡ true))
launcher_cases v none namespace = inl (refl, refl)
launcher_cases v (some r) namespace = elim (Bool-cases (r == "")) [
  | inl e ↦ inl (rw e refl, rw e refl)
  | inr e ↦ inr (r, rw e refl, rw e refl)
]

-- The desired resources without the launcher's ConfigMap.
abbrev pub kept : Variant → Settings → Json → List Json
kept v s namespace = v.workloads s namespace ++ secret s namespace ∷ []

-- What holds with the launcher's ConfigMap in front and without it holds of the desired resources.
pub desired_cases {ℓ} :
    (P : List Json → Type ℓ) (v : Variant) (s : Settings) (namespace : Json)
    → P (kept v s namespace)
    → ((r : String) → P (v.launcher_configmap namespace r ∷ kept v s namespace))
    → P (desired_resources v s namespace)
desired_cases P v s namespace without within =
    elim (launcher_cases v s.kfp_default_pipeline_root namespace) [
      | inl (e, _) ↦ rw e without
      | inr (r, e, _) ↦ rw e (within r)
    ]
