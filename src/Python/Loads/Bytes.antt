-- ===== src/Python/Loads/Bytes.antt =====
-- The bytes that `json.loads` gets: `detect_encoding` of the json module, and the decoding of
-- UTF-8. The other encodings are an argument.
use kubefrog_kvmserver.Prelude.{
  ℕ, zero, suc, ◌+◌, ◌-◌, ◌*◌, ◌≤◌, ◌≡◌, refl, Bool, true, false, ◌&&◌, ◌||◌, List, [], ◌∷◌, none,
  some, ltb, leb, ◌==◌, nat_eq, if◌then◌else◌, length, All, arith,
}
use kubefrog_kvmserver.Python.Errors.{Result, ok, err, value_error, ◌>>=◌}
use kubefrog_kvmserver.Python.Base64.{utf8}
use kubefrog_kvmserver.Python.Base64.Ascii.{IsAscii}
use kubefrog_kvmserver.Python.Loads.Text.{Scanned}
use kubefrog_kvmserver.Python.Numeral.{codes}

pub data Encoding : Type 0 where
  utf_8 utf_8_sig utf_16 utf_16_be utf_16_le utf_32 utf_32_be utf_32_le : Encoding

starts_with : List ℕ → List ℕ → Bool
starts_with [] l = true
starts_with (w ∷ mark) [] = false
starts_with (w ∷ mark) (b ∷ l) = let rest = starts_with mark l in b == w && rest

-- Where the zero bytes of the first characters stand.
zero_pattern : List ℕ → Encoding
zero_pattern (a ∷ b ∷ c ∷ d ∷ rest) =
    if a == 0
    then if b == 0 then utf_32_be else utf_16_be
    else if b == 0
    then if c == 0 && d == 0 then utf_32_le else utf_16_le
    else utf_8
zero_pattern (a ∷ b ∷ []) = if a == 0 then utf_16_be else if b == 0 then utf_16_le else utf_8
zero_pattern _ = utf_8

unfoldable pub detect_encoding : List ℕ → Encoding
unfolding starts_with zero_pattern
detect_encoding bytes =
    if starts_with (0 ∷ 0 ∷ 254 ∷ 255 ∷ []) bytes || starts_with (255 ∷ 254 ∷ 0 ∷ 0 ∷ []) bytes
    then utf_32
    else if starts_with (254 ∷ 255 ∷ []) bytes || starts_with (255 ∷ 254 ∷ []) bytes
    then utf_16
    else if starts_with (239 ∷ 187 ∷ 191 ∷ []) bytes
    then utf_8_sig
    else zero_pattern bytes

abbrev is_continuation : ℕ → Bool
is_continuation b = leb 128 b && leb b 191

-- A code point of several bytes, if they continue and it takes no fewer bytes.
abbrev checked : Bool → ℕ → ℕ → List ℕ → Scanned ℕ
checked continued least n rest =
    if continued && leb least n && ltb n 1114112 then some (n, rest) else none

abbrev two_bytes : ℕ → List ℕ → Scanned ℕ
two_bytes a (b ∷ rest) = checked (is_continuation b) 128 ((a - 192) * 64 + (b - 128)) rest
two_bytes a _ = none

abbrev three_bytes : ℕ → List ℕ → Scanned ℕ
three_bytes a (b ∷ c ∷ rest) =
    checked (is_continuation b && is_continuation c) 2048
      ((a - 224) * 4096 + (b - 128) * 64 + (c - 128)) rest
three_bytes a _ = none

abbrev four_bytes : ℕ → List ℕ → Scanned ℕ
four_bytes a (b ∷ c ∷ d ∷ rest) =
    checked (is_continuation b && is_continuation c && is_continuation d) 65536
      ((a - 240) * 262144 + (b - 128) * 4096 + (c - 128) * 64 + (d - 128)) rest
four_bytes a _ = none

point : ℕ → List ℕ → Scanned ℕ
point a rest =
    if ltb a 128
    then some (a, rest)
    else if ltb a 192
    then none
    else if ltb a 224
    then two_bytes a rest
    else if ltb a 240
    then three_bytes a rest
    else if ltb a 248
    then four_bytes a rest
    else none

abbrev in_front : ℕ → Result (List ℕ) → Result (List ℕ)
in_front n r = r >>= λ l. ok (n ∷ l)

abbrev point_and : (List ℕ → Result (List ℕ)) → Scanned ℕ → Result (List ℕ)
point_and decode none = err value_error
point_and decode (some (n, rest)) = in_front n (decode rest)

-- On fuel for each byte.
utf8_points : ℕ → List ℕ → Result (List ℕ)
unfolding point
utf8_points fuel [] = ok []
utf8_points zero (a ∷ l) = err value_error
utf8_points (suc fuel) (a ∷ l) = point_and (utf8_points fuel) (point a l)

unfoldable pub decode_utf8 : List ℕ → Result (List ℕ)
unfolding utf8_points
decode_utf8 bytes = utf8_points (length bytes) bytes

module _ (other : Encoding → List ℕ → Result (List ℕ)) where
  abbrev decode_as : Encoding → List ℕ → Result (List ℕ)
  decode_as utf_8 bytes = decode_utf8 bytes
  decode_as utf_8_sig (a ∷ b ∷ c ∷ bytes) = decode_utf8 bytes
  decode_as e bytes = other e bytes

  -- `bytes.decode(detect_encoding(bytes))`
  unfoldable pub decode : List ℕ → Result (List ℕ)
  unfolding detect_encoding decode_utf8
  decode bytes = decode_as (detect_encoding bytes) bytes

utf8_decoded : decode_utf8 (utf8 "aé€😀") ≡ ok (codes "aé€😀")
unfolding decode_utf8 utf8 point
utf8_decoded = refl

no_mark :
    (a : ℕ)
    → IsAscii a
    → ((a == 0) ≡ false) × ((a == 255) ≡ false) × ((a == 254) ≡ false) × ((a == 239) ≡ false)
no_mark a h = (ground (arith, h), ground (arith, h), ground (arith, h), ground (arith, h))

detect_encoding-ascii : (bytes : List ℕ) → All IsAscii bytes → detect_encoding bytes ≡ utf_8
unfolding detect_encoding
detect_encoding-ascii [] h = refl
detect_encoding-ascii (a ∷ []) (ha, h) =
    let (zero_a, ff, fe, ef) = no_mark a ha in rw (zero_a, ff, fe, ef) refl
detect_encoding-ascii (a ∷ b ∷ []) (ha, (hb, h)) =
    let (zero_a, ff, fe, ef) = no_mark a ha in rw (zero_a, ff, fe, ef, (no_mark b hb).0) refl
detect_encoding-ascii (a ∷ b ∷ c ∷ []) (ha, h) =
    let (zero_a, ff, fe, ef) = no_mark a ha in rw (zero_a, ff, fe, ef) refl
detect_encoding-ascii (a ∷ b ∷ c ∷ d ∷ l) (ha, (hb, h)) =
    let (zero_a, ff, fe, ef) = no_mark a ha in rw (zero_a, ff, fe, ef, (no_mark b hb).0) refl

utf8_points-ascii :
    (fuel : ℕ) (bytes : List ℕ)
    → length bytes ≤ fuel
    → All IsAscii bytes
    → utf8_points fuel bytes ≡ ok bytes
unfolding utf8_points
utf8_points-ascii fuel [] enough h = refl
utf8_points-ascii zero (a ∷ l) enough h = absurd (omega arith)
utf8_points-ascii (suc fuel) (a ∷ l) enough (ha, h) =
    let small : ltb a 128 ≡ true = ground (arith, ha) in
    rw (small, utf8_points-ascii fuel l (omega arith) h) refl

-- Bytes of ASCII, none of them zero, are decoded as they are.
pub decode-ascii :
    (other : Encoding → List ℕ → Result (List ℕ)) (bytes : List ℕ)
    → All IsAscii bytes
    → decode other bytes ≡ ok bytes
unfolding decode
decode-ascii other bytes h =
    rw (detect_encoding-ascii bytes h) (utf8_points-ascii (length bytes) bytes (omega arith) h)
