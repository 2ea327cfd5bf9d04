-- ===== src/Python/Loads/Digits.antt =====
-- An integer that `json.dumps` wrote is read back.
use Prim.Native.Char.{code}
use Prim.Native.String.{char_at}
use kubefrog_kvmserver.Prelude.{
  ℕ, zero, suc, ◌/◌, ◌%◌, ◌<◌, ◌≤◌, String, ◌<>◌, ◌≡◌, refl, Bool, true, false, ◌||◌, not, ◌⊎◌, inl,
  inr, List, [], ◌∷◌, ◌++◌, some, ltb, ◌==◌, nat_eq, arith, Bool-cases, All, All-append,
  for_all_below, for_all_below_lem,
}
use kubefrog_kvmserver.Python.Numeral.{codes, codes-append}
use kubefrog_kvmserver.Python.Dumps.{decimal, decimal_within, one}
use kubefrog_kvmserver.Python.Dumps.Decimal.{decimal-digits}
use kubefrog_kvmserver.Python.Loads.Numbers.{
  is_digit, span_digits, whole, fraction, exponent, integer, number,
}

abbrev pub IsDigit : ℕ → Type 0
IsDigit c = is_digit c ≡ true

-- The digits of a number: at least one, and no zero in front of others.
abbrev pub Numeral : ℕ → List ℕ → Type 0
Numeral n [] = ⊥
Numeral n (c ∷ l) =
    All IsDigit (c ∷ l) × (((1 ≤ n) × ((c == b'0') ≡ false)) ⊎ ((n ≡ 0) × (c ≡ b'0') × (l ≡ [])))

abbrev digit_code : ℕ → ℕ
digit_code d = code (char_at "0123456789" d)

pub Numeral-All : (n : ℕ) (l : List ℕ) → Numeral n l → All IsDigit l
Numeral-All n [] h = tt
Numeral-All n (c ∷ l) h = h.0

digit_table : for_all_below (λ d. is_digit (digit_code d)) 10 ≡ true
unfolding for_all_below
digit_table = refl

digit_code-IsDigit : (d : ℕ) → d < 10 → IsDigit (digit_code d)
digit_code-IsDigit d small = for_all_below_lem _ 10 d small digit_table

-- Only the digit of zero is a zero.
zero_table : for_all_below (λ d. d == 0 || not (digit_code d == b'0')) 10 ≡ true
unfolding for_all_below
zero_table = refl

Numeral-append :
    (m n d : ℕ) (l : List ℕ) → 1 ≤ m → 1 ≤ n → IsDigit d → Numeral m l → Numeral n (l ++ d ∷ [])
Numeral-append m n d [] hm hn hd h = absurd h
Numeral-append m n d (c ∷ l) hm hn hd (digits, inl (_, first)) =
    (All-append IsDigit (c ∷ l) (d ∷ []) digits (hd, tt), inl (hn, first))
Numeral-append m n d (c ∷ l) hm hn hd (digits, inr (none_left, _, _)) = absurd (omega arith)

Numeral-digit : (n : ℕ) → n < 10 → Numeral n (digit_code n ∷ [])
Numeral-digit zero small = ((digit_code-IsDigit 0 small, tt), inr (refl, refl, refl))
Numeral-digit (suc n) small =
    let not_zero = for_all_below_lem _ 10 (suc n) small zero_table in
    ((digit_code-IsDigit (suc n) small, tt), inl (omega arith, ground (arith, not_zero)))

last_code :
    (front : String) (n : ℕ)
    → codes (front <> one (char_at "0123456789" n)) ≡ codes front ++ digit_code n ∷ []
last_code front n = codes-append front _

decimal_within-Numeral : (fuel n : ℕ) → n < fuel → Numeral n (codes (decimal_within fuel n))
unfolding decimal_within
decimal_within-Numeral zero n enough = absurd (omega arith)
decimal_within-Numeral (suc fuel) n enough = elim (Bool-cases (ltb n 10)) [
  | inl e ↦
      let small : n < 10 = ground (arith, e) in
      let same : n % 10 ≡ n = omega arith in
      rw (e, last_code "" (n % 10), same) (Numeral-digit n small)
  | inr e ↦
      let big : 10 ≤ n = ground (arith, e) in
      rw (e, last_code (decimal_within fuel (n / 10)) (n % 10))
        (Numeral-append (n / 10) n _ _ (omega arith) (omega arith)
          (digit_code-IsDigit (n % 10) (omega arith))
          (decimal_within-Numeral fuel (n / 10) (omega arith)))
]

pub decimal-Numeral : (n : ℕ) → Numeral n (codes (decimal n))
unfolding decimal
decimal-Numeral n = decimal_within-Numeral (suc n) n (omega arith)

-- A character that cannot go on with a number.
abbrev pub Ends : List ℕ → Type 0
Ends [] = Unit
Ends (c ∷ l) = (is_digit c ≡ false) × ((c == b'.') ≡ false) × ((c == b'e' || c == b'E') ≡ false)

span_digits-Ends :
    (l tail : List ℕ) → All IsDigit l → Ends tail → span_digits (l ++ tail) ≡ (l, tail)
unfolding span_digits
span_digits-Ends [] [] h e = refl
span_digits-Ends [] (c ∷ tail) h (e, _, _) = rw e refl
span_digits-Ends (d ∷ l) tail (hd, h) e = rw (hd, span_digits-Ends l tail h e) refl

whole-Numeral :
    (n : ℕ) (l tail : List ℕ) → Numeral n l → Ends tail → whole (l ++ tail) ≡ some (l, tail)
unfolding whole
whole-Numeral n [] tail h e = absurd h
whole-Numeral n (c ∷ l) tail (digits, inl (_, first)) e =
    rw (first, digits.0, span_digits-Ends l tail digits.1 e) refl
whole-Numeral n (c ∷ l) tail (digits, inr (_, zero_first, alone)) e = rw (zero_first, alone) refl

fraction-Ends : (tail : List ℕ) → Ends tail → fraction tail ≡ ([], tail)
unfolding fraction
fraction-Ends [] e = refl
fraction-Ends (c ∷ tail) (_, e, _) = rw e refl

exponent-Ends : (tail : List ℕ) → Ends tail → exponent tail ≡ ([], tail)
unfolding exponent
exponent-Ends [] e = refl
exponent-Ends (c ∷ tail) (_, _, e) = rw e refl

-- The digits of a number are read back, up to a character that cannot go on with it.
pub number-decimal :
    (float_repr : List ℕ → String) (below : Bool) (n : ℕ) (tail : List ℕ)
    → Ends tail
    → number float_repr below (codes (decimal n) ++ tail) ≡ some (integer below n, tail)
unfolding number
number-decimal float_repr below n tail e =
    rw
      (
        whole-Numeral n _ tail (decimal-Numeral n) e,
        fraction-Ends tail e,
        exponent-Ends tail e,
        decimal-digits n,
      )
      refl
