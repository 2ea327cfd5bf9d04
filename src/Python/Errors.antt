-- ===== src/Python/Errors.antt =====
-- Exceptions as values: what a call raises, or what it returns.
use kubefrog_kvmserver.Prelude.{
  ℕ, List, String, ◌≡◌, refl, ◌⊎◌, inl, inr, Bool, true, false, Option, none, some, ◌==◌, string_eq,
  if◌then◌else◌,
}

-- The exception classes that the modelled code can raise; a `KeyError` carries its key, an
-- `Exception` its message. `missing_field` is the `KeyError` of `format`, with the codes of the name.
pub data Error : Type 0 where
  key_error exception : String → Error
  missing_field : List ℕ → Error
  attribute_error type_error value_error index_error client_error : Error

-- What a call did: it raised an exception, or it returned a value.
pub data Result {ℓ} (A : Type ℓ) : Type ℓ where
  err : Error → Result A
  ok : A → Result A

module _ {ℓ κ} {A : Type ℓ} {B : Type κ} where
  infixl 5 ◌>>=◌
  -- The rest of a body after a call: an exception ends it.
  abbrev pub ◌>>=◌ : Result A → (A → Result B) → Result B
  err raised >>= rest = err raised
  ok value >>= rest = rest value

  -- A call that returned, and what came after it.
  pub >>=-eq-ok :
      (call : Result A) (rest : A → Result B) {b : B}
      → (call >>= rest) ≡ ok b
      → (value : A) × (call ≡ ok value) × (rest value ≡ ok b)
  >>=-eq-ok (ok value) rest h = (value, refl, h)
  >>=-eq-ok (err raised) rest h = cc

-- `a or b` where `a` is a text or `None`: `None` and the empty text are false.
abbrev pub or_text : Option String → Result String → Result String
or_text none r = r
or_text (some s) r = if s == "" then r else ok s

-- The truth value of a text or `None`.
abbrev pub truthy : Option String → Bool
truthy o = elim o [ none ↦ false | some s ↦ if s == "" then false else true ]

pub Result-cases {ℓ} :
    {A : Type ℓ} (r : Result A) → ((a : A) × (r ≡ ok a)) ⊎ ((e : Error) × (r ≡ err e))
Result-cases (ok a) = inl (a, refl)
Result-cases (err e) = inr (e, refl)
