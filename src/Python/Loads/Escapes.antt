-- ===== src/Python/Loads/Escapes.antt =====
-- Every character that `json.dumps` writes, escaped or not, is read back.
use Prim.Native.Char.{Char, code}
use Prim.Native.String.{char_at}
use kubefrog_kvmserver.Prelude.{
  ℕ, ◌+◌, ◌-◌, ◌*◌, ◌/◌, ◌%◌, ◌<◌, ◌≤◌, ◌<>◌, ◌≡◌, refl, ap, ◌∙◌, Bool, true, false, List, [], ◌∷◌,
  ◌++◌, Option, none, some, inl, inr, ◌==◌, nat_eq, arith, for_all_below, for_all_below_lem,
}
use kubefrog_kvmserver.Python.Numeral.{codes, codes-append, codes-append_before}
use kubefrog_kvmserver.Python.Dumps.{escape_unit}
use kubefrog_kvmserver.Python.Loads.Characters.{char_of-code, code-bounds}
use kubefrog_kvmserver.Python.Loads.Text.{
  is_high, is_low, hex_value, unit, joined, join, escape, letter, scanned, step,
}

abbrev pub hex_code : ℕ → ℕ
hex_code d = code (char_at "0123456789abcdef" d)

hex_is : ℕ → Option ℕ → Bool
hex_is d none = false
hex_is d (some e) = e == d

hex_table : for_all_below (λ d. hex_is d (hex_value (hex_code d))) 16 ≡ true
unfolding for_all_below hex_value hex_is
hex_table = refl

hex_is-some : (d : ℕ) (o : Option ℕ) → hex_is d o ≡ true → o ≡ some d
unfolding hex_is
hex_is-some d none h = cc
hex_is-some d (some e) h = ground (arith, h)

hex_value-digit : (d : ℕ) → d < 16 → hex_value (hex_code d) ≡ some d
hex_value-digit d small = hex_is-some d _ (for_all_below_lem _ 16 d small hex_table)

unit-hex :
    (a b c d : ℕ) (tail : List ℕ)
    → a < 16
    → b < 16
    → c < 16
    → d < 16
    → unit (hex_code a ∷ hex_code b ∷ hex_code c ∷ hex_code d ∷ tail)
      ≡ some (a * 4096 + b * 256 + c * 16 + d, tail)
unfolding unit
unit-hex a b c d tail ha hb hc hd =
    rw (hex_value-digit a ha, hex_value-digit b hb, hex_value-digit c hc, hex_value-digit d hd) refl

pub codes-escape_unit :
    (u : ℕ)
    → codes (escape_unit u)
      ≡ 92
        ∷ b'u'
        ∷ hex_code (u / 4096)
        ∷ hex_code (u / 256 % 16)
        ∷ hex_code (u / 16 % 16)
        ∷ hex_code (u % 16)
        ∷ []
unfolding escape_unit
codes-escape_unit u = simp codes-append

sixteens : (u : ℕ) → u / 4096 * 4096 + u / 256 % 16 * 256 + u / 16 % 16 * 16 + u % 16 ≡ u
sixteens u = omega arith

-- The digits of a unit are read back.
unit-digits :
    (u : ℕ) (tail : List ℕ)
    → u < 65536
    → unit (
        hex_code (u / 4096)
        ∷ hex_code (u / 256 % 16)
        ∷ hex_code (u / 16 % 16)
        ∷ hex_code (u % 16)
        ∷ tail)
      ≡ some (u, tail)
unit-digits u tail small =
    unit-hex (u / 4096) (u / 256 % 16) (u / 16 % 16) (u % 16) tail (omega arith) (omega arith)
      (omega arith) (omega arith)
    ∙ ap (λ n. some (n, tail)) (sixteens u)

step-unit :
    (u : ℕ) (tail : List ℕ)
    → u < 65536
    → step (codes (escape_unit u) ++ tail) ≡ scanned (join (some (u, tail)))
unfolding step escape
step-unit u tail small = rw (codes-escape_unit, unit-digits u tail small) refl

pub scanned-code : (c : Char) (tail : List ℕ) → scanned (some (code c, tail)) ≡ letter c tail
unfolding scanned
scanned-code c tail = rw (char_of-code c) refl

not_high : (c : Char) → code c < 65536 → is_high (code c) ≡ false
not_high c small = elim (code-bounds c) [ inl h ↦ ground arith | inr h ↦ ground arith ]

pub step-escape_unit :
    (c : Char) (tail : List ℕ)
    → code c < 65536
    → step (codes (escape_unit (code c)) ++ tail) ≡ letter c tail
step-escape_unit c tail small =
    step-unit (code c) tail small ∙ rw (not_high c small) (scanned-code c tail)

abbrev pub high : ℕ → ℕ
high n = 55296 + (n - 65536) / 1024 % 1024

abbrev pub low : ℕ → ℕ
low n = 56320 + (n - 65536) % 1024

high-is_high : (n : ℕ) → is_high (high n) ≡ true
high-is_high n = ground arith

low-is_low : (n : ℕ) → is_low (low n) ≡ true
low-is_low n = ground arith

joined-low :
    (h l : ℕ) (tail : List ℕ)
    → l < 65536
    → is_low l ≡ true
    → joined h (codes (escape_unit l) ++ tail)
      ≡ some (65536 + (h - 55296) * 1024 + (l - 56320), tail)
unfolding joined
joined-low h l tail small found = rw (codes-escape_unit, unit-digits l tail small, found) refl

pair_number :
    (n : ℕ) → 65536 ≤ n → n < 1114112 → 65536 + (high n - 55296) * 1024 + (low n - 56320) ≡ n
pair_number n big small = omega arith

pub step-pair :
    (c : Char) (tail : List ℕ)
    → 65536 ≤ code c
    → step (codes (escape_unit (high (code c)) <> escape_unit (low (code c))) ++ tail)
      ≡ letter c tail
step-pair c tail big =
    let n = code c in
    let bound : n < 1114112 = elim (code-bounds c) [ inl h ↦ omega arith | inr h ↦ omega arith ] in
    ap step (codes-append_before (escape_unit (high n)) _ tail)
    ∙ step-unit (high n) _ (omega arith)
    ∙ rw
        (
          high-is_high n,
          joined-low (high n) (low n) tail (omega arith) (low-is_low n),
          pair_number n big bound,
        )
        (scanned-code c tail)
