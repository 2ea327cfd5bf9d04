-- ===== src/Python/Base64/Laws.antt =====
-- Decoding what `b64encode` returns gives the bytes back.
use Prim.Native.Char.{Char, char, code}
use kubefrog_kvmserver.Prelude.{
  ℕ, ◌+◌, ◌-◌, ◌*◌, ◌/◌, ◌%◌, ◌<◌, ◌≡◌, refl, Bool, true, false, ◌&&◌, not, List, [], ◌∷◌, All,
  All-append, arith, leb, ◌==◌, nat_eq, if◌then◌else◌, for_all_below, for_all_below_lem, String,
}
use kubefrog_kvmserver.Python.Numeral.{codes}
use kubefrog_kvmserver.Python.Base64.{b64encode, digit, utf8, utf8_char, utf8_codes}

-- The value of a base64 digit.
unfoldable pub sextet : ℕ → ℕ
sextet c =
    if leb b'a' c
    then c - 71
    else if leb b'A' c
    then c - 65
    else if leb b'0' c
    then c + 4
    else if c == b'+'
    then 62
    else 63

-- A decoder by groups of four, from RFC 4648.
unfoldable pub b64decode : List ℕ → List ℕ
b64decode (w ∷ x ∷ y ∷ z ∷ rest) =
    let tail = b64decode rest in
    if y == b'='
    then (sextet w * 4 + sextet x / 16) ∷ []
    else if z == b'='
    then (sextet w * 4 + sextet x / 16) ∷ (sextet x % 16 * 16 + sextet y / 4) ∷ []
    else (sextet w * 4 + sextet x / 16)
      ∷ (sextet x % 16 * 16 + sextet y / 4)
      ∷ (sextet y % 4 * 64 + sextet z)
      ∷ tail
b64decode _ = []

abbrev is_inverse : ℕ → Bool
is_inverse n = (sextet (code (digit n)) == n) && not (code (digit n) == b'=')

digit_table : for_all_below is_inverse 64 ≡ true
unfolding for_all_below digit sextet
digit_table = refl

digit_read : (n : ℕ) → n < 64 → is_inverse n ≡ true
digit_read n h = for_all_below_lem is_inverse 64 n h digit_table

sextet-digit : (n : ℕ) → n < 64 → sextet (code (digit n)) ≡ n
sextet-digit n h = ground (arith, digit_read n h)

digit-ne-pad : (n : ℕ) → n < 64 → (code (digit n) == b'=') ≡ false
digit-ne-pad n h = ground (arith, digit_read n h)

pub b64decode-b64encode :
    (bytes : List ℕ) → All (λ b. b < 256) bytes → b64decode (codes (b64encode bytes)) ≡ bytes
unfolding b64encode b64decode
b64decode-b64encode [] h = refl
b64decode-b64encode (a ∷ []) h = ground (arith, sextet-digit (a / 4), sextet-digit (a % 4 * 16))
b64decode-b64encode (a ∷ b ∷ []) h = ground (
  arith,
  sextet-digit (a / 4),
  sextet-digit (a % 4 * 16 + b / 16),
  sextet-digit (b % 16 * 4),
  digit-ne-pad (b % 16 * 4),
)
b64decode-b64encode (a ∷ b ∷ c ∷ rest) h = ground (
  arith,
  sextet-digit (a / 4),
  sextet-digit (a % 4 * 16 + b / 16),
  sextet-digit (b % 16 * 4 + c / 64),
  sextet-digit (c % 64),
  digit-ne-pad (b % 16 * 4 + c / 64),
  digit-ne-pad (c % 64),
  b64decode-b64encode rest h.1.1.1,
)

utf8_char-bytes : (c : ℕ) → c < 1114112 → All (λ b. b < 256) (utf8_char c)
unfolding utf8_char
utf8_char-bytes c h = ground arith

code-lt : (c : Char) → code c < 1114112
code-lt (char n p) = ground arith

utf8_codes_bytes : (s : String) → All (λ b. b < 256) (utf8_codes (codes s))
unfolding utf8_codes
utf8_codes_bytes String.[] = tt
utf8_codes_bytes (String.◌∷◌ c s) =
    All-append (λ b. b < 256) (utf8_char (code c)) _ (utf8_char-bytes (code c) (code-lt c))
      (utf8_codes_bytes s)

-- Every item of the UTF-8 encoding of a text is a byte.
pub utf8_bytes : (s : String) → All (λ b. b < 256) (utf8 s)
unfolding utf8
utf8_bytes s = utf8_codes_bytes s

-- The text that a credential is stored as decodes to the bytes of the credential.
pub b64decode-b64encode-utf8 : (s : String) → b64decode (codes (b64encode (utf8 s))) ≡ utf8 s
b64decode-b64encode-utf8 s = b64decode-b64encode (utf8 s) (utf8_bytes s)
