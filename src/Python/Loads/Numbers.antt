-- ===== src/Python/Loads/Numbers.antt =====
-- The numbers of `json.loads`: -?(0|[1-9][0-9]*)(\.[0-9]+)?([eE][+-]?[0-9]+)?
-- What Python makes of one with a fraction or an exponent is an argument: the `repr` of the float.
use kubefrog_kvmserver.Prelude.{
  ℕ, zero, suc, String, ◌≡◌, refl, Bool, true, false, ◌&&◌, ◌||◌, List, [], ◌∷◌, ◌++◌, Option, none,
  some, leb, ◌==◌, nat_eq, if◌then◌else◌,
}
use kubefrog_kvmserver.Python.Json.{Json, num, negative, float}
use kubefrog_kvmserver.Python.Numeral.{codes}
use kubefrog_kvmserver.Python.Dumps.Decimal.{digits_number}
use kubefrog_kvmserver.Python.Loads.Text.{Scanned}

abbrev pub is_digit : ℕ → Bool
is_digit c = leb b'0' c && leb c b'9'

abbrev pub Split : Type 0
Split = List ℕ × List ℕ

abbrev pub with_digit : ℕ → Split → Split
with_digit c (digits, rest) = (c ∷ digits, rest)

-- The digits at the front, and the rest.
unfoldable pub span_digits : List ℕ → Split
span_digits [] = ([], [])
span_digits (c ∷ l) =
    let after = span_digits l in if is_digit c then with_digit c after else ([], c ∷ l)

-- 0|[1-9][0-9]*
unfoldable pub whole : List ℕ → Option Split
unfolding span_digits
whole [] = none
whole (c ∷ l) =
    if c == b'0' then some (c ∷ [], l) else if is_digit c then some (span_digits (c ∷ l)) else none

-- A mark and the digits behind it; without a digit the mark is not taken.
abbrev pub marked : List ℕ → List ℕ → Split → Split
marked mark l ([], rest) = ([], l)
marked mark l (d ∷ digits, rest) = (mark ++ d ∷ digits, rest)

-- (\.[0-9]+)?
unfoldable pub fraction : List ℕ → Split
unfolding span_digits
fraction [] = ([], [])
fraction (c ∷ l) = if c == b'.' then marked (c ∷ []) (c ∷ l) (span_digits l) else ([], c ∷ l)

abbrev is_sign : ℕ → Bool
is_sign c = c == b'+' || c == b'-'

unfoldable pub signed_digits : ℕ → List ℕ → Split
unfolding span_digits
signed_digits e [] = ([], e ∷ [])
signed_digits e (c ∷ l) =
    if is_sign c
    then marked (e ∷ c ∷ []) (e ∷ c ∷ l) (span_digits l)
    else marked (e ∷ []) (e ∷ c ∷ l) (span_digits (c ∷ l))

-- ([eE][+-]?[0-9]+)?
unfoldable pub exponent : List ℕ → Split
unfolding signed_digits
exponent [] = ([], [])
exponent (c ∷ l) = if c == b'e' || c == b'E' then signed_digits c l else ([], c ∷ l)

abbrev pub minus : ℕ → Json
minus zero = num 0
minus (suc n) = negative n

abbrev pub integer : Bool → ℕ → Json
integer false n = num n
integer true n = minus n

abbrev pub sign : Bool → List ℕ
sign true = b'-' ∷ []
sign false = []

module _ (float_repr : List ℕ → String) where
  -- An integer if there is neither a fraction nor an exponent.
  abbrev pub number_of : Bool → List ℕ → List ℕ → List ℕ → Json
  number_of below digits [] [] = integer below (digits_number 0 digits)
  number_of below digits f e = float (float_repr (sign below ++ digits ++ f ++ e))

  abbrev pub with_exponent : Bool → List ℕ → List ℕ → Split → Json × List ℕ
  with_exponent below digits f (e, rest) = (number_of below digits f e, rest)

  abbrev pub with_fraction : Bool → List ℕ → Split → Json × List ℕ
  with_fraction below digits (f, rest) = with_exponent below digits f (exponent rest)

  abbrev pub with_whole : Bool → Option Split → Scanned Json
  with_whole below none = none
  with_whole below (some (digits, rest)) = some (with_fraction below digits (fraction rest))

  -- A number past its sign.
  unfoldable pub number : Bool → List ℕ → Scanned Json
  unfolding whole exponent fraction
  number below l = with_whole below (whole l)

number_scanned : number (λ l. "1.5") true (codes "12.50e+3,") ≡ some (float "1.5", b',' ∷ [])
unfolding number span_digits
number_scanned = refl
