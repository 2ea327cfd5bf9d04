-- ===== src/Python/Json.antt =====
-- The values that `json.loads` returns and that dict displays build, with the accesses that the
-- programs make: `.get`, `[]`, `len`, truth, and the text that an f-string puts in.
pub mod Literal
pub mod Unordered
use kubefrog_kvmserver.Prelude.{
  ℕ, suc, String, Bool, true, false, not, ◌||◌, Option, none, some, ◌==◌, string_eq, nat_eq,
  if◌then◌else◌,
}
use Prim.Native.String.{count}
use kubefrog_kvmserver.Python.Errors.{
  Result, ok, err, key_error, attribute_error, type_error, index_error,
}

-- A float is kept as its `repr`; the programs never compute with one. `negative n` is -(n + 1).
-- A dict keeps its insertion order.
mutual
  pub data Json : Type 0 where
    null : Json
    bool : Bool → Json
    num : ℕ → Json
    negative : ℕ → Json
    float : String → Json
    str : String → Json
    arr : Items → Json
    obj : Fields → Json

  pub data Items : Type 0 where
    nil : Items
    cons : Json → Items → Items

  pub data Fields : Type 0 where
    end : Fields
    field : String → Json → Fields → Fields

abbrev pub lookup : String → Fields → Option Json
lookup k end = none
lookup k (field j v fs) = if j == k then some v else lookup k fs

abbrev pub size : Fields → ℕ
size end = 0
size (field k v fs) = suc (size fs)

abbrev pub items_length : Items → ℕ
items_length nil = 0
items_length (cons x xs) = suc (items_length xs)

-- `found or default`
abbrev pub with_default : Option Json → Json → Json
with_default none d = d
with_default (some v) d = v

-- `value.get(key, default)`: only a dict has the method.
abbrev pub get : Json → String → Json → Result Json
get (obj fs) k d = ok (with_default (lookup k fs) d)
get _ k d = err attribute_error

abbrev pub found_or_raise : String → Option Json → Result Json
found_or_raise k none = err (key_error k)
found_or_raise k (some v) = ok v

-- `value[key]` at a text key
abbrev pub index : Json → String → Result Json
index (obj fs) k = found_or_raise k (lookup k fs)
index _ k = err type_error

-- `len(value)`
abbrev pub len : Json → Result ℕ
len (str s) = ok (count s)
len (arr xs) = ok (items_length xs)
len (obj fs) = ok (size fs)
len _ = err type_error

-- `value == "text"`
abbrev pub is_text : Json → String → Bool
is_text (str s) t = s == t
is_text _ t = false

-- The truth value of a JSON value.
abbrev pub truth : Json → Bool
truth null = false
truth (bool b) = b
truth (num n) = not (n == 0)
truth (negative n) = true
truth (float r) = not (r == "0.0" || r == "-0.0")
truth (str s) = not (s == "")
truth (arr nil) = false
truth (arr (cons _ _)) = true
truth (obj end) = false
truth (obj (field _ _ _)) = true

-- `value[0]`
abbrev pub first_item : Json → Result Json
first_item (arr nil) = err index_error
first_item (arr (cons x xs)) = ok x
first_item (str String.[]) = err index_error
first_item (str (String.◌∷◌ c s)) = ok (str (String.◌∷◌ c ""))
first_item (obj fs) = err (key_error "0")
first_item _ = err type_error
