-- ===== src/Python/Loads/Characters.antt =====
-- `chr` of a code point: the character, but for the surrogates.
use Prim.Native.Nat.{compare, Ordering}
use Prim.Native.Char.{Char, char, code, IsLt, IsScalar}
use native.Mathlib.Decide.{dec_lt}
use text.Mathlib.TextEquality.{Char-path}
use kubefrog_kvmserver.Prelude.{
  ℕ, ◌≡◌, ◌≢◌, ◌<◌, ◌⊎◌, inl, inr, refl, ap, Option, none, some, arith,
}

-- The clauses of `IsScalar`.
abbrev BothLess : Ordering → Ordering → Type 0
BothLess Ordering.lt o = IsLt o
BothLess Ordering.eq o = ⊥
BothLess Ordering.gt o = ⊥

abbrev Scalar : Ordering → Ordering → Ordering → Type 0
Scalar Ordering.lt o p = Unit
Scalar Ordering.eq o p = BothLess o p
Scalar Ordering.gt o p = BothLess o p

decide_less : (o : Ordering) → Option (IsLt o)
decide_less Ordering.lt = some tt
decide_less Ordering.eq = none
decide_less Ordering.gt = none

decide_both : (o p : Ordering) → Option (BothLess o p)
unfolding decide_less
decide_both Ordering.lt p = decide_less p
decide_both Ordering.eq p = none
decide_both Ordering.gt p = none

decide_scalar : (o p q : Ordering) → Option (Scalar o p q)
unfolding decide_both
decide_scalar Ordering.lt p q = some tt
decide_scalar Ordering.eq p q = decide_both p q
decide_scalar Ordering.gt p q = decide_both p q

char_with : (n : ℕ) → Option (IsScalar n) → Option Char
char_with n none = none
char_with n (some p) = some (char n p)

-- The character of a code point; a surrogate has none.
unfoldable pub char_of : ℕ → Option Char
unfolding char_with decide_scalar
char_of n = char_with n (decide_scalar (compare n 55296) (compare 57343 n) (compare n 1114112))

less_decided : (o : Ordering) → IsLt o → decide_less o ≢ none
unfolding decide_less
less_decided Ordering.lt h e = cc
less_decided Ordering.eq h e = absurd h
less_decided Ordering.gt h e = absurd h

both_decided : (o p : Ordering) → BothLess o p → decide_both o p ≢ none
unfolding decide_both
both_decided Ordering.lt p h = less_decided p h
both_decided Ordering.eq p h = absurd h
both_decided Ordering.gt p h = absurd h

scalar_decided : (o p q : Ordering) → Scalar o p q → decide_scalar o p q ≢ none
unfolding decide_scalar
scalar_decided Ordering.lt p q h e = cc
scalar_decided Ordering.eq p q h e = both_decided p q h e
scalar_decided Ordering.gt p q h e = both_decided p q h e

found_char :
    (n : ℕ) (p : IsScalar n) (o : Option (IsScalar n)) → o ≢ none → char_with n o ≡ some (char n p)
unfolding char_with
found_char n p none h = absurd (h refl)
found_char n p (some q) h = ap some (Char-path (char n q) (char n p) refl)

pub char_of-code : (c : Char) → char_of (code c) ≡ some c
unfolding char_of
char_of-code (char n p) =
    found_char n p _ (scalar_decided (compare n 55296) (compare 57343 n) (compare n 1114112) p)

pub code-bounds : (c : Char) → (code c < 55296) ⊎ ((57343 < code c) × (code c < 1114112))
code-bounds (char n p) = elim (dec_lt n 55296) [
  | yes h ↦ inl h
  | no h ↦ inr (ground (arith, p), ground (arith, p))
]
