-- ===== src/Python/Loads/Written.antt =====
-- The text that `json.dumps` writes, part by part, and how the scan of each part starts.
use Prim.Native.Char.{Char, code}
use mathlib.Core.List.{append_assoc}
use kubefrog_kvmserver.Prelude.{
  ℕ, suc, ◌≤◌, String, ◌≡◌, refl, true, false, List, [], ◌∷◌, ◌++◌, some, ◌==◌, nat_eq, string_eq,
  arith, length, length-append,
}
use kubefrog_kvmserver.Python.Json.{Json, negative, arr, obj, Items, cons, Fields, field}
use kubefrog_kvmserver.Python.Numeral.{codes, codes-append}
use kubefrog_kvmserver.Python.Dumps.{
  dumps, dumps_items, dumps_fields, decimal, quoted, escaped, escape_code,
}
use kubefrog_kvmserver.Python.Loads.Text.{step, letter}
use kubefrog_kvmserver.Python.Loads.Strings.{letters-escaped, step-escape_code}
use kubefrog_kvmserver.Python.Loads.Numbers.{number}
use kubefrog_kvmserver.Python.Loads.Digits.{IsDigit, Numeral}
use kubefrog_kvmserver.Python.Loads.Values.{is_white, skip, lead, value_at, text_from}

pub codes-quoted :
    (s : String) (tail : List ℕ)
    → codes (quoted s) ++ tail ≡ b'"' ∷ (codes (escaped s) ++ b'"' ∷ tail)
unfolding quoted
codes-quoted s tail = simp (codes-append, append_assoc)

pub codes-negative :
    (n : ℕ) (tail : List ℕ)
    → codes (dumps (negative n)) ++ tail ≡ b'-' ∷ (codes (decimal (suc n)) ++ tail)
unfolding dumps
codes-negative n tail = simp (codes-append, append_assoc)

pub codes-list :
    (x : Json) (xs : Items) (tail : List ℕ)
    → codes (dumps (arr (cons x xs))) ++ tail
      ≡ b'[' ∷ (codes (dumps x) ++ (codes (dumps_items xs) ++ tail))
unfolding dumps
codes-list x xs tail = simp (codes-append, append_assoc)

pub codes-items :
    (x : Json) (xs : Items) (tail : List ℕ)
    → codes (dumps_items (cons x xs)) ++ tail
      ≡ b',' ∷ 32 ∷ (codes (dumps x) ++ (codes (dumps_items xs) ++ tail))
unfolding dumps_items
codes-items x xs tail = simp (codes-append, append_assoc)

abbrev pub member : String → Json → Fields → List ℕ → List ℕ
member k v fs tail =
    b'"'
    ∷ (codes (escaped k)
        ++ b'"' ∷ b':' ∷ 32 ∷ (codes (dumps v) ++ (codes (dumps_fields fs) ++ tail)))

pub codes-dict :
    (k : String) (v : Json) (fs : Fields) (tail : List ℕ)
    → codes (dumps (obj (field k v fs))) ++ tail ≡ b'{' ∷ member k v fs tail
unfolding dumps quoted
codes-dict k v fs tail = simp (codes-append, append_assoc)

pub codes-fields :
    (k : String) (v : Json) (fs : Fields) (tail : List ℕ)
    → codes (dumps_fields (field k v fs)) ++ tail ≡ b',' ∷ 32 ∷ member k v fs tail
unfolding dumps_fields quoted
codes-fields k v fs tail = simp (codes-append, append_assoc)

-- A character is written with at least one.
written : (c : Char) (l : List ℕ) → step (l ++ []) ≡ letter c [] → 1 ≤ length l
unfolding step
written c [] h = cc
written c (d ∷ l) h = omega arith

length-escaped : (s : String) → length (codes s) ≤ length (codes (escaped s))
unfolding escaped
length-escaped String.[] = omega arith
length-escaped (String.◌∷◌ c s) =
    let one_more = written c (codes (escape_code (code c) c)) (step-escape_code c []) in
    rw
      (
        codes-append (escape_code (code c) c) (escaped s),
        length-append (codes (escape_code (code c) c)) (codes (escaped s)),
      )
      (omega (arith, one_more, length-escaped s))

-- A quoted text is read back.
pub text_from-escaped :
    (s : String) (tail : List ℕ) → text_from (codes (escaped s) ++ b'"' ∷ tail) ≡ some (s, tail)
text_from-escaped s tail =
    letters-escaped _ s tail
      (rw (length-append (codes (escaped s)) (b'"' ∷ tail)) (omega (arith, length-escaped s)))

pub skip-digit : (c : ℕ) (l : List ℕ) → IsDigit c → skip (c ∷ l) ≡ c ∷ l
unfolding skip
skip-digit c l h = let ink : is_white c ≡ false = ground (arith, h) in rw ink refl

module _ (float_repr : List ℕ → String) where
  lead-digit :
      (c : ℕ) (l : List ℕ)
      → IsDigit c
      → lead float_repr (c ∷ l) ≡ value_at (number float_repr false (c ∷ l))
  unfolding lead
  lead-digit c l h =
      let no_text : (c == b'"') ≡ false = ground (arith, h) in
      let no_list : (c == b'[') ≡ false = ground (arith, h) in
      let no_dict : (c == b'{') ≡ false = ground (arith, h) in
      let no_sign : (c == b'-') ≡ false = ground (arith, h) in
      rw (no_text, no_list, no_dict, no_sign, h) refl

  pub lead-Numeral :
      (n : ℕ) (l tail : List ℕ)
      → Numeral n l
      → lead float_repr (skip (l ++ tail)) ≡ value_at (number float_repr false (l ++ tail))
  lead-Numeral n [] tail h = absurd h
  lead-Numeral n (c ∷ l) tail h =
      rw (skip-digit c (l ++ tail) h.0.0) (lead-digit c (l ++ tail) h.0.0)

  pub lead-negative :
      (n : ℕ) (l tail : List ℕ)
      → Numeral n l
      → lead float_repr (skip (b'-' ∷ (l ++ tail))) ≡ value_at (number float_repr true (l ++ tail))
  unfolding lead skip
  lead-negative n [] tail h = absurd h
  lead-negative n (c ∷ l) tail h =
      let digit = h.0.0 in
      let no_word : (c == b'I') ≡ false = ground (arith, digit) in rw no_word refl
