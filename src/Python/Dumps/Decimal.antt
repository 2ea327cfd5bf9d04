-- ===== src/Python/Dumps/Decimal.antt =====
-- The fuel of `decimal` is enough: its digits read back give the number.
use Prim.Native.Char.{code}
use Prim.Native.String.{char_at}
use kubefrog_kvmserver.Prelude.{
  ℕ, zero, suc, ◌+◌, ◌-◌, ◌*◌, ◌/◌, ◌%◌, ◌<◌, ◌≤◌, ◌≡◌, refl, ap, ◌∙◌, true, inl, inr, List, [],
  ◌∷◌, ◌++◌, String, ◌<>◌, arith, ltb, ◌==◌, nat_eq, nat_beq_iff, Bool-cases, for_all_below,
  for_all_below_lem,
}
use kubefrog_kvmserver.Python.Numeral.{codes, codes-append}
use kubefrog_kvmserver.Python.Dumps.{decimal, decimal_within, one}

-- The number that digits stand for, after a number that was read before them.
abbrev pub digits_number : ℕ → List ℕ → ℕ
digits_number before [] = before
digits_number before (c ∷ rest) = digits_number (before * 10 + (c - b'0')) rest

digits_number-append :
    (before : ℕ) (k l : List ℕ)
    → digits_number before (k ++ l) ≡ digits_number (digits_number before k) l
digits_number-append before [] l = refl
digits_number-append before (c ∷ k) l = digits_number-append (before * 10 + (c - b'0')) k l

digit_table : for_all_below (λ d. code (char_at "0123456789" d) - b'0' == d) 10 ≡ true
unfolding for_all_below
digit_table = refl

digit_read : (d : ℕ) → d < 10 → code (char_at "0123456789" d) - b'0' ≡ d
digit_read d small = (nat_beq_iff _ d).0 (for_all_below_lem _ 10 d small digit_table)

last_digit :
    (front : String) (n : ℕ)
    → digits_number 0 (codes (front <> one (char_at "0123456789" (n % 10))))
      ≡ digits_number 0 (codes front) * 10 + n % 10
last_digit front n =
    ap (digits_number 0) (codes-append front _)
    ∙ digits_number-append 0 (codes front) _
    ∙ ap (λ d. digits_number 0 (codes front) * 10 + d) (digit_read (n % 10) (omega arith))

low : (n : ℕ) → n < 10 → 0 * 10 + n % 10 ≡ n
low n h = omega arith

decimal_within-digits :
    (fuel n : ℕ) → n < fuel → digits_number 0 (codes (decimal_within fuel n)) ≡ n
unfolding decimal_within
decimal_within-digits zero n small = absurd (omega arith)
decimal_within-digits (suc fuel) n small = elim (Bool-cases (ltb n 10)) [
  | inl e ↦ rw e (last_digit "" n ∙ low n (ground (arith, e)))
  | inr e ↦
      let front =
        decimal_within-digits fuel (n / 10) (let big : 10 ≤ n = ground (arith, e) in omega arith) in
      rw e (
        last_digit (decimal_within fuel (n / 10)) n ∙ ap (λ k. k * 10 + n % 10) front ∙ omega arith)
]

-- The digits of a number, read back, give the number.
pub decimal-digits : (n : ℕ) → digits_number 0 (codes (decimal n)) ≡ n
unfolding decimal
decimal-digits n = decimal_within-digits (suc n) n (omega arith)
