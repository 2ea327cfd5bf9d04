-- ===== src/Controller/Readiness.antt =====
-- The test behind `kubeflow-pipelines-ready`, from the sizes of the reported groups.
use kubefrog_kvmserver.Prelude.{
  ℕ, String, ◌≡◌, ◌≢◌, refl, sym, ◌∙◌, arith, ap, all, Bool, true, false, ◌&&◌, not, Option, none,
  some, List, [], ◌∷◌, ◌==◌, nat_eq, string_eq, All, if◌then◌else◌,
}
use kubefrog_kvmserver.Python.Errors.{Result, ok, err, key_error, ◌>>=◌}
use kubefrog_kvmserver.Python.Json.{Json, index, len}
use kubefrog_kvmserver.Controller.Sync.{is_ready, and_then, group_has}
use kubefrog_kvmserver.Controller.Inventory.{HasSizes}

and_then-ok : (a b : Bool) → and_then (ok a) (ok b) ≡ ok (a && b)
and_then-ok true b = refl
and_then-ok false b = refl

and_true : (b : Bool) → (b && true) ≡ b
and_true true = refl
and_true false = refl

-- The number that `is_ready` asks for in each group.
abbrev pub watched : ℕ → List (String × ℕ)
watched n =
    ("Secret.v1", 1)
    ∷ ("ConfigMap.v1", n)
    ∷ ("Deployment.apps/v1", 2)
    ∷ ("Service.v1", 2)
    ∷ ("DestinationRule.networking.istio.io/v1alpha3", 1)
    ∷ ("AuthorizationPolicy.security.istio.io/v1beta1", 1)
    ∷ []

group_has-size :
    (observed : Json) (g : String) (k n : ℕ)
    → (index observed g >>= len) ≡ ok k
    → group_has observed g n ≡ ok (k == n)
unfolding group_has
group_has-size observed g k n e = ap (λ r. r >>= λ m. ok (m == n)) e

pub is_ready-false :
    (observed : Json) (k n : ℕ)
    → (index observed "Secret.v1" >>= len) ≡ ok k
    → k ≢ 1
    → is_ready observed n ≡ ok false
unfolding is_ready
is_ready-false observed k n h ne = rw (group_has-size observed _ _ _ h) (ground arith)

module _ (observed : Json) (sizes : String → ℕ) (r : HasSizes observed sizes) where
  pub is_ready-sizes : (n : ℕ) → is_ready observed n ≡ ok (all (λ (g, k). sizes g == k) (watched n))
  unfolding is_ready
  is_ready-sizes n =
      rw
        (
          group_has-size observed _ _ _ r.0,
          group_has-size observed _ _ _ r.1.0,
          group_has-size observed _ _ _ r.1.1.0,
          group_has-size observed _ _ _ r.1.1.1.0,
          group_has-size observed _ _ _ r.1.1.1.1.0,
          group_has-size observed _ _ _ r.1.1.1.1.1.0,
        )
        (simp (and_then-ok, and_true))

-- How many objects a group is reported with, if it is.
abbrev pub Reported : Json → (String → Option ℕ) → String → Type 0
Reported observed reported g =
    (index observed g >>= len) ≡ elim (reported g) [ none ↦ err (key_error g) | some m ↦ ok m ]

abbrev pub is_off : Option ℕ → ℕ → Bool
is_off none k = true
is_off (some m) k = not (m == k)

-- The first group that is not reported with its number of objects.
abbrev pub first_off : (String → Option ℕ) → List (String × ℕ) → Option String
first_off reported [] = none
first_off reported ((g, k) ∷ rest) =
    let later = first_off reported rest in if is_off (reported g) k then some g else later

-- Without the group the test raises, with the wrong number of objects it is false.
abbrev pub off_result : String → Option ℕ → Result Bool
off_result g none = err (key_error g)
off_result g (some m) = ok false

abbrev pub decided : (String → Option ℕ) → Option String → Result Bool
decided reported none = ok true
decided reported (some g) = off_result g (reported g)

abbrev ready_of : Json → List (String × ℕ) → Result Bool
ready_of observed [] = ok true
ready_of observed ((g, k) ∷ rest) = and_then (group_has observed g k) (ready_of observed rest)

and_then-true : (r : Result Bool) → and_then r (ok true) ≡ r
and_then-true (ok true) = refl
and_then-true (ok false) = refl
and_then-true (err e) = refl

decided_if :
    (reported : String → Option ℕ) (b : Bool) (g : String) (later : Option String)
    → decided reported (if b then some g else later)
      ≡ (if b then decided reported (some g) else decided reported later)
decided_if reported true g later = refl
decided_if reported false g later = refl

module _ (observed : Json) (reported : String → Option ℕ) where
  group_has-decided :
      (g : String) (k : ℕ) (found : Option ℕ) (later : Result Bool)
      → reported g ≡ found
      → Reported observed reported g
      → and_then (group_has observed g k) later
        ≡ (if is_off found k then off_result g found else later)
  unfolding group_has
  group_has-decided g k none later e h = rw h (rw e refl)
  group_has-decided g k (some m) later e h = rw h (rw e (ground arith))

  ready_of-first_off :
      (ws : List (String × ℕ))
      → All (λ (g, k). Reported observed reported g) ws
      → ready_of observed ws ≡ decided reported (first_off reported ws)
  ready_of-first_off [] h = refl
  ready_of-first_off ((g, k) ∷ rest) (h, hs) = rw (ready_of-first_off rest hs) (
      group_has-decided g k (reported g) _ refl h
      ∙ sym (decided_if reported (is_off (reported g) k) g (first_off reported rest)))

  -- The first group that is off decides.
  pub is_ready-first_off :
      (n : ℕ)
      → All (λ (g, k). Reported observed reported g) (watched n)
      → is_ready observed n ≡ decided reported (first_off reported (watched n))
  unfolding is_ready
  is_ready-first_off n h =
      ap
        (λ r. and_then (group_has observed "Secret.v1" 1) (
          and_then (group_has observed "ConfigMap.v1" n) (
            and_then (group_has observed "Deployment.apps/v1" 2) (
              and_then (group_has observed "Service.v1" 2) (
                and_then (group_has observed "DestinationRule.networking.istio.io/v1alpha3" 1)
                  r)))))
        (sym (and_then-true (group_has observed "AuthorizationPolicy.security.istio.io/v1beta1" 1)))
      ∙ ready_of-first_off (watched n) h

both_true : (a b : Result Bool) → and_then a b ≡ ok true → (a ≡ ok true) × (b ≡ ok true)
both_true (ok true) b h = (refl, h)
both_true (ok false) b h = cc
both_true (err e) b h = cc

group_has-true :
    (observed : Json) (g : String) (n : ℕ)
    → group_has observed g n ≡ ok true
    → (index observed g >>= len) ≡ ok n
unfolding group_has
group_has-true observed g n h = ground arith

-- A namespace is ready only with two Deployments.
pub is_ready-deployments :
    (observed : Json) (n : ℕ)
    → is_ready observed n ≡ ok true
    → (index observed "Deployment.apps/v1" >>= len) ≡ ok 2
unfolding is_ready
is_ready-deployments observed n h =
    let (_, h1) = both_true (group_has observed "Secret.v1" 1) _ h in
    let (_, h2) = both_true (group_has observed "ConfigMap.v1" n) _ h1 in
    group_has-true observed "Deployment.apps/v1" 2
      (both_true (group_has observed "Deployment.apps/v1" 2) _ h2).0
