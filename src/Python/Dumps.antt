-- ===== src/Python/Dumps.antt =====
-- `json.dumps(value)` with its default separators and ASCII escapes, and the decimal digits.
pub mod Decimal
use Prim.Native.Char.{Char, code}
use Prim.Native.String.{char_at}
use kubefrog_kvmserver.Prelude.{
  ℕ, zero, suc, ◌+◌, ◌-◌, ◌/◌, ◌%◌, String, ◌<>◌, ◌≡◌, refl, true, false, ◌&&◌, [], ◌∷◌, ltb, leb,
  ◌==◌, nat_eq, if◌then◌else◌,
}
use kubefrog_kvmserver.Python.Json.{
  Json, null, bool, num, negative, float, str, arr, obj, Items, nil, cons, Fields, end, field,
}
use kubefrog_kvmserver.Python.Json.Literal.{dict, list}

abbrev pub one : Char → String
one c = String.◌∷◌ c ""

abbrev pub hex_digit : ℕ → String
hex_digit n = one (char_at "0123456789abcdef" n)

-- On fuel: every round divides by ten, so more rounds than the number itself are enough.
unfoldable pub decimal_within : ℕ → ℕ → String
decimal_within zero n = ""
decimal_within (suc fuel) n =
    let front = decimal_within fuel (n / 10) in
    (if ltb n 10 then "" else front) <> one (char_at "0123456789" (n % 10))

unfoldable pub decimal : ℕ → String
unfolding decimal_within
decimal n = decimal_within (suc n) n

-- `\uXXXX`
unfoldable pub escape_unit : ℕ → String
escape_unit u =
    "\\u"
    <> hex_digit (u / 4096)
    <> hex_digit (u / 256 % 16)
    <> hex_digit (u / 16 % 16)
    <> hex_digit (u % 16)

unfoldable pub escape_code : ℕ → Char → String
unfolding escape_unit
escape_code n c =
    if n == b'"'
    then "\\\""
    else if n == 92
    then "\\\\"
    else if n == 10
    then "\\n"
    else if n == 13
    then "\\r"
    else if n == 9
    then "\\t"
    else if n == 12
    then "\\f"
    else if n == 8
    then "\\b"
    else if leb 32 n && leb n 126
    then one c
    else if ltb n 65536
    then escape_unit n
    else escape_unit (55296 + (n - 65536) / 1024 % 1024) <> escape_unit (56320 + (n - 65536) % 1024)

unfoldable pub escaped : String → String
unfolding escape_code
escaped String.[] = ""
escaped (String.◌∷◌ c s) = escape_code (code c) c <> escaped s

unfoldable pub quoted : String → String
unfolding escaped
quoted s = "\"" <> escaped s <> "\""

unfoldable mutual
  unfolding quoted decimal

  pub dumps : Json → String
  dumps null = "null"
  dumps (bool true) = "true"
  dumps (bool false) = "false"
  dumps (num n) = decimal n
  dumps (negative n) = "-" <> decimal (suc n)
  dumps (float r) = r
  dumps (str s) = quoted s
  dumps (arr nil) = "[]"
  dumps (arr (cons x xs)) = "[" <> dumps x <> dumps_items xs
  dumps (obj end) = "{}"
  dumps (obj (field k v fs)) = "{" <> quoted k <> ": " <> dumps v <> dumps_fields fs

  pub dumps_items : Items → String
  dumps_items nil = "]"
  dumps_items (cons x xs) = ", " <> dumps x <> dumps_items xs

  pub dumps_fields : Fields → String
  dumps_fields end = "}"
  dumps_fields (field k v fs) = ", " <> quoted k <> ": " <> dumps v <> dumps_fields fs

-- The text of a value in an f-string or from `str`; `repr` is Python's for lists and dicts.
abbrev pub format : (Json → String) → Json → String
format repr null = "None"
format repr (bool true) = "True"
format repr (bool false) = "False"
format repr (num n) = decimal n
format repr (negative n) = "-" <> decimal (suc n)
format repr (float r) = r
format repr (str s) = s
format repr v = repr v

dumps_nested :
    dumps (dict (("a", list (num 10 ∷ null ∷ [])) ∷ ("b\n", str "é\"") ∷ []))
    ≡ "{\"a\": [10, null], \"b\\n\": \"\\u00e9\\\"\"}"
unfolding dumps
dumps_nested = refl
