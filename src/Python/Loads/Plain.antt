-- ===== src/Python/Loads/Plain.antt =====
-- The values that JSON holds exactly.
use kubefrog_kvmserver.Prelude.{
  ◌≡◌, refl, Bool, true, false, ◌&&◌, Option, none, some, nat_eq, string_eq, arith,
}
use kubefrog_kvmserver.Python.Json.{
  Json, float, arr, obj, Items, nil, cons, Fields, end, field, lookup,
}

-- A value without floats, whose dicts have each key once.
abbrev pub is_none : Option Json → Bool
is_none none = true
is_none (some v) = false

unfoldable mutual
  pub is_plain : Json → Bool
  is_plain (float r) = false
  is_plain (arr xs) = plain_items xs
  is_plain (obj fs) = plain_fields fs
  is_plain _ = true

  pub plain_items : Items → Bool
  plain_items nil = true
  plain_items (cons x xs) = is_plain x && plain_items xs

  pub plain_fields : Fields → Bool
  plain_fields end = true
  plain_fields (field k v fs) = is_none (lookup k fs) && is_plain v && plain_fields fs

pub both_true : (a b : Bool) → (a && b) ≡ true → (a ≡ true) × (b ≡ true)
both_true a b h = ground arith

pub is_none-true : (o : Option Json) → is_none o ≡ true → o ≡ none
is_none-true none h = refl
is_none-true (some v) h = cc
