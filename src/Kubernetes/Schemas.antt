-- ===== src/Kubernetes/Schemas.antt =====
-- Schemas of JSON values. An object has the required members, and no others than those listed.
use kubefrog_kvmserver.Prelude.{
  String, Bool, true, false, ◌||◌, ◌&&◌, Option, none, some, List, [], ◌∷◌, all, ◌==◌, string_eq,
}
use kubefrog_kvmserver.Python.Json.{Json, Fields, bool, str, num, arr, obj, end, field, lookup}
use kubefrog_kvmserver.Python.Json.Literal.{elements_of}

mutual
  pub data Schema : Type 0 where
    anything text number truth : Schema
    list_of map_of : Schema → Schema
    object_of : Members → Schema

  pub data Members : Type 0 where
    none_left : Members
    required optional : String → Schema → Members → Members

abbrev values : Fields → List Json
values end = []
values (field k v fs) = v ∷ values fs

-- The key of a member.
abbrev lists : Members → String → Bool
lists none_left k = false
lists (required j schema members) k = j == k || lists members k
lists (optional j schema members) k = j == k || lists members k

abbrev keys_listed : Members → Fields → Bool
keys_listed members end = true
keys_listed members (field k v fs) = lists members k && keys_listed members fs

-- What a member says of a field: `missing` says it of an object without the field.
abbrev holds : Bool → (Json → Bool) → Option Json → Bool
holds missing valid none = missing
holds missing valid (some v) = valid v

unfoldable mutual
  pub validate : Schema → Json → Bool
  validate anything v = true
  validate text (str s) = true
  validate number (num n) = true
  validate truth (bool b) = true
  validate (list_of schema) (arr xs) = all (validate schema) (elements_of xs)
  validate (map_of schema) (obj fs) = all (validate schema) (values fs)
  validate (object_of members) (obj fs) = keys_listed members fs && validate_members members fs
  validate _ _ = false

  validate_members : Members → Fields → Bool
  validate_members none_left fs = true
  validate_members (required k schema members) fs =
      holds false (validate schema) (lookup k fs) && validate_members members fs
  validate_members (optional k schema members) fs =
      holds true (validate schema) (lookup k fs) && validate_members members fs
