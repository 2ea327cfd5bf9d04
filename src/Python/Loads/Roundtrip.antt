-- ===== src/Python/Loads/Roundtrip.antt =====
-- What `json.dumps` writes, `json.loads` reads back.
use kubefrog_kvmserver.Prelude.{
  ℕ, zero, suc, ◌+◌, ◌≤◌, String, ◌≡◌, refl, ap, ◌∙◌, true, false, ◌&&◌, List, [], ◌∷◌, ◌++◌, some,
  ◌==◌, nat_eq, string_eq, arith, length,
}
use kubefrog_kvmserver.Python.Errors.{ok}
use kubefrog_kvmserver.Python.Json.{
  Json, null, bool, num, negative, float, str, arr, obj, Items, nil, cons, Fields, end, field,
  lookup,
}
use kubefrog_kvmserver.Python.Numeral.{codes, codes-append}
use kubefrog_kvmserver.Python.Dumps.{dumps, dumps_items, dumps_fields, decimal}
use kubefrog_kvmserver.Python.Loads.Digits.{Ends, Numeral, decimal-Numeral, number-decimal}
use kubefrog_kvmserver.Python.Loads.Values.{
  skip, value_of, separator, neither, value, items, fields, loads_text,
}
use kubefrog_kvmserver.Python.Loads.Written.{
  codes-quoted, codes-negative, codes-list, codes-items, member, codes-dict, codes-fields,
  text_from-escaped, lead-Numeral, lead-negative, skip-digit,
}
use kubefrog_kvmserver.Python.Loads.Plain.{
  is_plain, plain_items, plain_fields, is_none, both_true, is_none-true,
}
use kubefrog_kvmserver.Python.Loads.Fuel.{
  weight, items_weight, fields_weight, weight_positive, weight-length,
}

Ends-items : (xs : Items) (tail : List ℕ) → Ends (codes (dumps_items xs) ++ tail)
unfolding dumps_items
Ends-items nil tail = (refl, refl, refl)
Ends-items (cons x xs) tail = rw (codes-items x xs tail) (refl, refl, refl)

Ends-fields : (fs : Fields) (tail : List ℕ) → Ends (codes (dumps_fields fs) ++ tail)
unfolding dumps_fields
Ends-fields end tail = (refl, refl, refl)
Ends-fields (field k v fs) tail = rw (codes-fields k v fs tail) (refl, refl, refl)

separator-Numeral :
    (n : ℕ) (l tail : List ℕ) → Numeral n l → separator b']' (skip (l ++ tail)) ≡ neither
unfolding separator
separator-Numeral n [] tail h = absurd h
separator-Numeral n (c ∷ l) tail h =
    let digit = h.0.0 in
    let no_close : (c == b']') ≡ false = ground (arith, digit) in
    let no_comma : (c == b',') ≡ false = ground (arith, digit) in
    rw (skip-digit c (l ++ tail) digit, no_close, no_comma) refl

-- A value does not start like the end of a list.
separator-dumps :
    (v : Json) (tail : List ℕ)
    → is_plain v ≡ true
    → separator b']' (skip (codes (dumps v) ++ tail)) ≡ neither
unfolding separator skip dumps is_plain
separator-dumps null tail p = refl
separator-dumps (bool true) tail p = refl
separator-dumps (bool false) tail p = refl
separator-dumps (num n) tail p = separator-Numeral n _ tail (decimal-Numeral n)
separator-dumps (negative n) tail p = rw (codes-append "-" (decimal (suc n))) refl
separator-dumps (float r) tail p = cc
separator-dumps (str s) tail p = rw (codes-quoted s tail) refl
separator-dumps (arr nil) tail p = refl
separator-dumps (arr (cons x xs)) tail p = rw (codes-list x xs tail) refl
separator-dumps (obj end) tail p = refl
separator-dumps (obj (field k v fs)) tail p = rw (codes-dict k v fs tail) refl

module _ (float_repr : List ℕ → String) where
  value-space : (n : ℕ) (l : List ℕ) → value float_repr n (32 ∷ l) ≡ value float_repr n l
  unfolding value skip
  value-space zero l = refl
  value-space (suc n) l = refl

  items-space : (n : ℕ) (l : List ℕ) → items float_repr n (32 ∷ l) ≡ items float_repr n l
  unfolding items
  items-space zero l = refl
  items-space (suc n) l = rw (value-space n l) refl

  fields-space : (n : ℕ) (l : List ℕ) → fields float_repr n (32 ∷ l) ≡ fields float_repr n l
  unfolding fields skip
  fields-space zero l = refl
  fields-space (suc n) l = refl

  -- Each part of a text is read back, on the fuel that it takes.
  mutual
    unfolding value items fields weight is_plain dumps

    value-dumps :
        (n : ℕ) (v : Json) (tail : List ℕ)
        → is_plain v ≡ true
        → weight v ≤ n
        → Ends tail
        → value float_repr n (codes (dumps v) ++ tail) ≡ some (v, tail)
    value-dumps zero v tail p enough e = absurd (omega (arith, weight_positive v))
    value-dumps (suc n) null tail p enough e = refl
    value-dumps (suc n) (bool true) tail p enough e = refl
    value-dumps (suc n) (bool false) tail p enough e = refl
    value-dumps (suc n) (num k) tail p enough e =
        rw
          (
            lead-Numeral float_repr k _ tail (decimal-Numeral k),
            number-decimal float_repr false k tail e,
          )
          refl
    value-dumps (suc n) (negative k) tail p enough e = rw (codes-negative k tail) (
        ap (value_of (items float_repr n) (fields float_repr n))
          (lead-negative float_repr (suc k) _ tail (decimal-Numeral (suc k)))
        ∙ number-decimal float_repr true (suc k) tail e)
    value-dumps (suc n) (float r) tail p enough e = cc
    value-dumps (suc n) (str s) tail p enough e =
        rw (codes-quoted s tail, text_from-escaped s tail) refl
    value-dumps (suc n) (arr nil) tail p enough e = refl
    value-dumps (suc n) (arr (cons x xs)) tail p enough e =
        let (px, pxs) = both_true (is_plain x) (plain_items xs) p in
        rw
          (
            codes-list x xs tail,
            separator-dumps x (codes (dumps_items xs) ++ tail) px,
            items-dumps n x xs tail p (omega arith),
          )
          refl
    value-dumps (suc n) (obj end) tail p enough e = refl
    value-dumps (suc n) (obj (field k v fs)) tail p enough e =
        rw (codes-dict k v fs tail, fields-dumps n k v fs tail p (omega arith)) refl

    items-dumps :
        (n : ℕ) (x : Json) (xs : Items) (tail : List ℕ)
        → (is_plain x && plain_items xs) ≡ true
        → suc (weight x + items_weight xs) ≤ n
        → items float_repr n (codes (dumps x) ++ (codes (dumps_items xs) ++ tail))
          ≡ some (cons x xs, tail)
    items-dumps zero x xs tail p enough = absurd (omega arith)
    items-dumps (suc n) x nil tail p enough =
        let (px, _) = both_true (is_plain x) true p in
        rw (value-dumps n x (b']' ∷ tail) px (omega arith) (refl, refl, refl)) refl
    items-dumps (suc n) x (cons y ys) tail p enough =
        let (px, pys) = both_true (is_plain x) (is_plain y && plain_items ys) p in
        rw
          (
            value-dumps n x (codes (dumps_items (cons y ys)) ++ tail) px (omega arith)
                (Ends-items (cons y ys) tail),
            codes-items y ys tail,
            items-space n (codes (dumps y) ++ (codes (dumps_items ys) ++ tail)),
            items-dumps n y ys tail pys (omega arith),
          )
          refl

    fields-dumps :
        (n : ℕ) (k : String) (v : Json) (fs : Fields) (tail : List ℕ)
        → (is_none (lookup k fs) && is_plain v && plain_fields fs) ≡ true
        → suc (weight v + fields_weight fs) ≤ n
        → fields float_repr n (member k v fs tail) ≡ some (field k v fs, tail)
    fields-dumps zero k v fs tail p enough = absurd (omega arith)
    fields-dumps (suc n) k v end tail p enough =
        let (here, _) = both_true (is_none (lookup k end) && is_plain v) true p in
        let (_, pv) = both_true (is_none (lookup k end)) (is_plain v) here in
        rw
          (
            text_from-escaped k (b':' ∷ 32 ∷ (codes (dumps v) ++ b'}' ∷ tail)),
            value-space n (codes (dumps v) ++ b'}' ∷ tail),
            value-dumps n v (b'}' ∷ tail) pv (omega arith) (refl, refl, refl),
          )
          refl
    fields-dumps (suc n) k v (field k' v' fs) tail p enough =
        let others = field k' v' fs in
        let (here, pfs) =
          both_true (is_none (lookup k others) && is_plain v) (plain_fields others) p in
        let (new, pv) = both_true (is_none (lookup k others)) (is_plain v) here in
        let rest = codes (dumps_fields others) ++ tail in
        rw
          (
            text_from-escaped k (b':' ∷ 32 ∷ (codes (dumps v) ++ rest)),
            value-space n (codes (dumps v) ++ rest),
            value-dumps n v rest pv (omega arith) (Ends-fields others tail),
            codes-fields k' v' fs tail,
            fields-space n (member k' v' fs tail),
            fields-dumps n k' v' fs tail pfs (omega arith),
            is_none-true (lookup k others) new,
          )
          refl

at_end : (l : List ℕ) → l ++ [] ≡ l
at_end [] = refl
at_end (c ∷ l) = ap (λ k. c ∷ k) (at_end l)

-- A value without floats, whose dicts have each key once, is read back from its text.
pub loads_text-dumps :
    (float_repr : List ℕ → String) (v : Json)
    → is_plain v ≡ true
    → loads_text float_repr (codes (dumps v)) ≡ ok v
unfolding loads_text
loads_text-dumps float_repr v p =
    let text = codes (dumps v) in
    let long : weight v + 0 ≤ length text = rw (at_end text) at (weight-length v [] p) in
    let enough : weight v ≤ length text = omega (arith, long) in
    let read : value float_repr (length text) text ≡ some (v, []) =
      rw (at_end text) at (value-dumps float_repr (length text) v [] p enough tt) in
    rw read refl
