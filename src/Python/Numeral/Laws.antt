-- ===== src/Python/Numeral/Laws.antt =====
-- `int` of plain digits.
use kubefrog_kvmserver.Prelude.{
  ℕ, ◌+◌, ◌-◌, ◌*◌, String, ◌≡◌, ◌≢◌, refl, true, false, List, [], ◌∷◌, some, leb, ◌&&◌, ◌||◌, ◌==◌,
  nat_eq, All, All-append, arith,
}
use mathlib.Core.List.{reverse, reverse-cons, reverse-reverse}
use kubefrog_kvmserver.Python.Errors.{ok}
use kubefrog_kvmserver.Python.Numeral.{
  int, pos, codes, is_space, strip_front, is_digit, digits_value, signed,
}
use kubefrog_kvmserver.Python.Dumps.Decimal.{digits_number}

abbrev Digit : ℕ → Type 0
Digit c = (leb b'0' c && leb c b'9') ≡ true

strip_front-digits : (l : List ℕ) → All Digit l → strip_front l ≡ l
unfolding strip_front is_space
strip_front-digits [] h = refl
strip_front-digits (c ∷ l) (digit, _) =
    let ink : (c == 32 || (leb 9 c && leb c 13)) ≡ false = ground (arith, digit) in rw ink refl

reverse-All : (l : List ℕ) → All Digit l → All Digit (reverse l)
reverse-All [] h = tt
reverse-All (c ∷ l) (digit, h) =
    rw reverse-cons (All-append Digit (reverse l) (c ∷ []) (reverse-All l h) (digit, tt))

digits_value-digits :
    (n : ℕ) (l : List ℕ) → All Digit l → digits_value n true l ≡ some (digits_number n l)
unfolding digits_value is_digit
digits_value-digits n [] h = refl
digits_value-digits n (c ∷ l) (digit, h) = rw digit (digits_value-digits (n * 10 + (c - b'0')) l h)

signed-digits : (l : List ℕ) → l ≢ [] → All Digit l → signed l ≡ some (pos (digits_number 0 l))
unfolding signed digits_value is_digit
signed-digits [] some_digit h = absurd (some_digit refl)
signed-digits (c ∷ l) some_digit (digit, h) =
    let no_minus : (c == b'-') ≡ false = ground (arith, digit) in
    let no_plus : (c == b'+') ≡ false = ground (arith, digit) in
    rw (no_minus, no_plus, digit, digits_value-digits (0 * 10 + (c - b'0')) l h) refl

-- A text of digits is read as the number that they stand for.
pub int-digits :
    (s : String) → codes s ≢ [] → All Digit (codes s) → int s ≡ ok (pos (digits_number 0 (codes s)))
unfolding int
int-digits s some_digit h =
    rw
      (
        strip_front-digits (codes s) h,
        strip_front-digits (reverse (codes s)) (reverse-All (codes s) h),
        reverse-reverse (codes s),
        signed-digits (codes s) some_digit h,
      )
      refl
