-- ===== src/Python/Loads.antt =====
-- `json.loads` of bytes: they are decoded, and the text is scanned. The decoding of UTF-16 and UTF-32
-- is an argument, and so is the `repr` of the float that a number with a fraction stands for.
pub mod Characters
pub mod Text
pub mod Escapes
pub mod Strings
pub mod Numbers
pub mod Digits
pub mod Values
pub mod Written
pub mod Plain
pub mod Fuel
pub mod Roundtrip
pub mod Ascii
pub mod Bytes
use kubefrog_kvmserver.Prelude.{ℕ, String, ◌≡◌, refl, true, List}
use kubefrog_kvmserver.Python.Errors.{Result, ok, ◌>>=◌}
use kubefrog_kvmserver.Python.Json.{Json}
use kubefrog_kvmserver.Python.Base64.{utf8}
use kubefrog_kvmserver.Python.Dumps.{dumps}
use kubefrog_kvmserver.Python.Loads.Values.{loads_text}
use kubefrog_kvmserver.Python.Loads.Plain.{is_plain}
use kubefrog_kvmserver.Python.Loads.Roundtrip.{loads_text-dumps}
use kubefrog_kvmserver.Python.Loads.Bytes.{Encoding, decode, decode-ascii}
use kubefrog_kvmserver.Python.Loads.Ascii.{utf8-dumps, dumps-IsAscii}

module _ (other : Encoding → List ℕ → Result (List ℕ)) (float_repr : List ℕ → String) where
  unfoldable pub loads : List ℕ → Result Json
  unfolding loads_text decode
  loads bytes = decode other bytes >>= loads_text float_repr

  -- The bytes of a value are read back.
  pub loads-dumps : (v : Json) → is_plain v ≡ true → loads (utf8 (dumps v)) ≡ ok v
  unfolding loads
  loads-dumps v p =
      rw (utf8-dumps v p, decode-ascii other _ (dumps-IsAscii v p))
        (loads_text-dumps float_repr v p)
