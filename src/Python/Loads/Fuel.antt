-- ===== src/Python/Loads/Fuel.antt =====
-- The fuel that the scan of a value takes is at most the length of its text.
use kubefrog_kvmserver.Prelude.{
  ℕ, suc, ◌+◌, ◌≤◌, String, ◌≡◌, true, false, ◌&&◌, List, [], ◌∷◌, ◌++◌, nat_eq, string_eq, arith,
  length, length-append,
}
use kubefrog_kvmserver.Python.Json.{
  Json, null, bool, num, negative, float, str, arr, obj, Items, nil, cons, Fields, end, field,
  lookup,
}
use kubefrog_kvmserver.Python.Numeral.{codes}
use kubefrog_kvmserver.Python.Dumps.{dumps, dumps_items, dumps_fields, decimal, escaped}
use kubefrog_kvmserver.Python.Loads.Digits.{Numeral, decimal-Numeral}
use kubefrog_kvmserver.Python.Loads.Written.{
  codes-quoted, codes-negative, codes-list, codes-items, member, codes-dict, codes-fields,
}
use kubefrog_kvmserver.Python.Loads.Plain.{is_plain, plain_items, plain_fields, is_none, both_true}

-- The fuel that a value takes.
unfoldable mutual
  pub weight : Json → ℕ
  weight (arr xs) = suc (items_weight xs)
  weight (obj fs) = suc (fields_weight fs)
  weight _ = 1

  pub items_weight : Items → ℕ
  items_weight nil = 0
  items_weight (cons x xs) = suc (weight x + items_weight xs)

  pub fields_weight : Fields → ℕ
  fields_weight end = 0
  fields_weight (field k v fs) = suc (weight v + fields_weight fs)

pub weight_positive : (v : Json) → 1 ≤ weight v
unfolding weight
weight_positive (arr xs) = omega arith
weight_positive (obj fs) = omega arith
weight_positive null = omega arith
weight_positive (bool b) = omega arith
weight_positive (num n) = omega arith
weight_positive (negative n) = omega arith
weight_positive (float r) = omega arith
weight_positive (str s) = omega arith

positive_length : (n : ℕ) (l : List ℕ) → Numeral n l → 1 ≤ length l
positive_length n [] h = absurd h
positive_length n (c ∷ l) h = omega arith

member-length :
    (k : String) (v : Json) (fs : Fields) (tail : List ℕ) (m n : ℕ)
    → let rest = codes (dumps_fields fs) ++ tail in
      m + length rest ≤ length (codes (dumps v) ++ rest)
      → suc (n + length tail) ≤ length rest
      → suc (suc (m + n)) + length tail ≤ length (member k v fs tail)
member-length k v fs tail m n hv hf =
    rw
      (length-append (codes (escaped k))
        (b'"' ∷ b':' ∷ 32 ∷ (codes (dumps v) ++ (codes (dumps_fields fs) ++ tail))))
      (omega arith)

-- The length of a text is enough fuel.
mutual
  unfolding weight dumps is_plain

  pub weight-length :
      (v : Json) (tail : List ℕ)
      → is_plain v ≡ true
      → weight v + length tail ≤ length (codes (dumps v) ++ tail)
  weight-length null tail p = omega arith
  weight-length (bool true) tail p = omega arith
  weight-length (bool false) tail p = omega arith
  weight-length (num n) tail p =
      rw (length-append (codes (decimal n)) tail)
        (omega (arith, positive_length n _ (decimal-Numeral n)))
  weight-length (negative n) tail p =
      rw (codes-negative n tail, length-append (codes (decimal (suc n))) tail) (omega arith)
  weight-length (float r) tail p = cc
  weight-length (str s) tail p =
      rw (codes-quoted s tail, length-append (codes (escaped s)) (b'"' ∷ tail)) (omega arith)
  weight-length (arr nil) tail p = omega arith
  weight-length (arr (cons x xs)) tail p =
      let (px, pxs) = both_true (is_plain x) (plain_items xs) p in
      rw (codes-list x xs tail) (
        omega (
          arith,
          weight-length x (codes (dumps_items xs) ++ tail) px,
          items_weight-length xs tail pxs,
        ))
  weight-length (obj end) tail p = omega arith
  weight-length (obj (field k v fs)) tail p =
      let (here, pfs) = both_true (is_none (lookup k fs) && is_plain v) (plain_fields fs) p in
      let (_, pv) = both_true (is_none (lookup k fs)) (is_plain v) here in
      rw (codes-dict k v fs tail) (
        omega (
          arith,
          member-length k v fs tail (weight v) (fields_weight fs)
              (weight-length v (codes (dumps_fields fs) ++ tail) pv)
              (fields_weight-length fs tail pfs),
        ))

  items_weight-length :
      (xs : Items) (tail : List ℕ)
      → plain_items xs ≡ true
      → suc (items_weight xs + length tail) ≤ length (codes (dumps_items xs) ++ tail)
  items_weight-length nil tail p = omega arith
  items_weight-length (cons x xs) tail p =
      let (px, pxs) = both_true (is_plain x) (plain_items xs) p in
      rw (codes-items x xs tail) (
        omega (
          arith,
          weight-length x (codes (dumps_items xs) ++ tail) px,
          items_weight-length xs tail pxs,
        ))

  fields_weight-length :
      (fs : Fields) (tail : List ℕ)
      → plain_fields fs ≡ true
      → suc (fields_weight fs + length tail) ≤ length (codes (dumps_fields fs) ++ tail)
  fields_weight-length end tail p = omega arith
  fields_weight-length (field k v fs) tail p =
      let (here, pfs) = both_true (is_none (lookup k fs) && is_plain v) (plain_fields fs) p in
      let (_, pv) = both_true (is_none (lookup k fs)) (is_plain v) here in
      rw (codes-fields k v fs tail) (
        omega (
          arith,
          member-length k v fs tail (weight v) (fields_weight fs)
              (weight-length v (codes (dumps_fields fs) ++ tail) pv)
              (fields_weight-length fs tail pfs),
        ))
