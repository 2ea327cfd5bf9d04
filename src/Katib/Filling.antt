-- ===== src/Katib/Filling.antt =====
-- The trial that Katib makes of a template: its replacement of a placeholder in a text is an argument,
-- with what Katib documents of it.
use kubefrog_kvmserver.Prelude.{
  String, ◌<>◌, ◌≡◌, refl, ap, ap₂, ◌∙◌, Bool, true, false, not, ◌||◌, ◌&&◌, List, [], ◌∷◌, ◌++◌,
  any, Option, none, some, ◌==◌, string_eq, nat_eq, if◌then◌else◌, Bool-cases, eq_iff, inl, inr,
  All, All-item,
}
use kubefrog_kvmserver.Python.Json.{
  Json, Items, Fields, null, bool, num, negative, float, str, arr, obj, nil, cons, end, field,
}
use kubefrog_kvmserver.Python.Numeral.{codes}
use kubefrog_kvmserver.Katib.{ParameterSpec, TrialParameterSpec, TrialTemplate}

-- A value with each of its texts replaced; the keys stay.
abbrev mutual
  pub fill : (String → String) → Json → Json
  fill f (str s) = str (f s)
  fill f (arr xs) = arr (fill_items f xs)
  fill f (obj fs) = obj (fill_fields f fs)
  fill f null = null
  fill f (bool b) = bool b
  fill f (num n) = num n
  fill f (negative n) = negative n
  fill f (float s) = float s

  fill_items : (String → String) → Items → Items
  fill_items f nil = nil
  fill_items f (cons x xs) = cons (fill f x) (fill_items f xs)

  fill_fields : (String → String) → Fields → Fields
  fill_fields f end = end
  fill_fields f (field k v fs) = field k (fill f v) (fill_fields f fs)

abbrev mutual
  pub holds_for : (String → Bool) → Json → Bool
  holds_for p (str s) = p s
  holds_for p (arr xs) = holds_for_items p xs
  holds_for p (obj fs) = holds_for_fields p fs
  holds_for p null = true
  holds_for p (bool b) = true
  holds_for p (num n) = true
  holds_for p (negative n) = true
  holds_for p (float s) = true

  holds_for_items : (String → Bool) → Items → Bool
  holds_for_items p nil = true
  holds_for_items p (cons x xs) = holds_for p x && holds_for_items p xs

  holds_for_fields : (String → Bool) → Fields → Bool
  holds_for_fields p end = true
  holds_for_fields p (field k v fs) = holds_for p v && holds_for_fields p fs

both : (a b : Bool) → a && b ≡ true → (a ≡ true) × (b ≡ true)
both true b h = (refl, h)
both false b h = cc

unplaced : (b : Bool) → not b ≡ true → b ≡ false
unplaced true h = cc
unplaced false h = refl

-- Two replacements that agree on the texts of a value make the same of it.
module _ (p : String → Bool) (f g : String → String)
    (same : (s : String) → p s ≡ true → f s ≡ g s) where
  mutual
    fill-same : (v : Json) → holds_for p v ≡ true → fill f v ≡ fill g v
    fill-same (str s) h = ap str (same s h)
    fill-same (arr xs) h = ap arr (fill_items-same xs h)
    fill-same (obj fs) h = ap obj (fill_fields-same fs h)
    fill-same null h = refl
    fill-same (bool b) h = refl
    fill-same (num n) h = refl
    fill-same (negative n) h = refl
    fill-same (float s) h = refl

    fill_items-same : (xs : Items) → holds_for_items p xs ≡ true → fill_items f xs ≡ fill_items g xs
    fill_items-same nil h = refl
    fill_items-same (cons x xs) h =
        let (here, rest) = both (holds_for p x) (holds_for_items p xs) h in
        ap₂ cons (fill-same x here) (fill_items-same xs rest)

    fill_fields-same :
        (fs : Fields) → holds_for_fields p fs ≡ true → fill_fields f fs ≡ fill_fields g fs
    fill_fields-same end h = refl
    fill_fields-same (field k v fs) h =
        let (here, rest) = both (holds_for p v) (holds_for_fields p fs) h in
        ap₂ (field k) (fill-same v here) (fill_fields-same fs rest)

abbrev pub placeholder : TrialParameterSpec → String
placeholder p = "${trialParameters." <> p.name <> "}"

abbrev pub has_dollar : String → Bool
has_dollar t = any (λ c. c == b'$') (codes t)

-- The values of a trial, one for each parameter of the search space.
abbrev pub valued : List ParameterSpec → List String → List (String × String)
valued [] values = []
valued (q ∷ parameters) [] = []
valued (q ∷ parameters) (v ∷ values) = (q.name, v) ∷ valued parameters values

abbrev pub assigned : String → List (String × String) → Option String
assigned name [] = none
assigned name ((k, v) ∷ rest) = if k == name then some v else assigned name rest

-- What Katib documents of the texts of a trial: a text without a placeholder stays, and at its end the
-- placeholder of a trial parameter becomes the value of the parameter that it refers to.
abbrev pub Replaces : TrialTemplate → List (String × String) → (String → String) → Type 0
Replaces template assignment substitute =
    ((t : String) → has_dollar t ≡ false → substitute t ≡ t)
    × All
        (λ p.
          (before v : String)
          → has_dollar before ≡ false
          → assigned p.reference assignment ≡ some v
          → substitute (before <> placeholder p) ≡ before <> v)
        template.trial_parameters

-- A placeholder after some text, and the value for it.
abbrev pub Use : Type 0
Use = String × TrialParameterSpec × String

abbrev pub text_of : Use → String
text_of (before, p, v) = before <> placeholder p

abbrev pub put_values : List Use → String → String
put_values [] t = t
put_values ((before, p, v) ∷ uses) t =
    if t == text_of (before, p, v) then before <> v else put_values uses t

abbrev pub is_covered : List Use → String → Bool
is_covered uses t = any (λ u. t == text_of u) uses || not (has_dollar t)

module _ (template : TrialTemplate) (assignment : List (String × String))
    (substitute : String → String) (replaces : Replaces template assignment substitute) where
  abbrev pub IsUse : Use → Type 0
  IsUse (before, p, v) =
      (front : List TrialParameterSpec) × (back : List TrialParameterSpec)
      × (template.trial_parameters ≡ front ++ p ∷ back)
      × (has_dollar before ≡ false)
      × (assigned p.reference assignment ≡ some v)

  substitute-put_values :
      (uses : List Use)
      → All IsUse uses
      → (t : String) → is_covered uses t ≡ true
      → substitute t ≡ put_values uses t
  substitute-put_values [] h t c = replaces.0 t (unplaced (has_dollar t) c)
  substitute-put_values ((before, p, v) ∷ uses) ((front, back, stands, plain, value), h) t c =
      elim (Bool-cases (t == text_of (before, p, v))) [
        | inl y ↦ rw y (
            ap substitute ((eq_iff t (text_of (before, p, v))).0 y)
            ∙ All-item _ front back p (rw stands at replaces.1) before v plain value)
        | inr n ↦ rw n (substitute-put_values uses h t (rw n at c))
      ]

  pub fill-put_values :
      (uses : List Use) (v : Json)
      → All IsUse uses
      → holds_for (is_covered uses) v ≡ true
      → fill substitute v ≡ fill (put_values uses) v
  fill-put_values uses v h c =
      fill-same (is_covered uses) substitute (put_values uses) (substitute-put_values uses h) v c
