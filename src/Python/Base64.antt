-- ===== src/Python/Base64.antt =====
-- `bytes(text, 'utf-8')` and `base64.b64encode(data).decode('utf-8')`.
pub mod Laws
pub mod Ascii
use Prim.Native.Char.{Char}
use Prim.Native.String.{char_at}
use kubefrog_kvmserver.Prelude.{
  ℕ, ◌+◌, ◌*◌, ◌/◌, ◌%◌, String, ◌≡◌, refl, List, [], ◌∷◌, ◌++◌, ltb, if◌then◌else◌,
}
use kubefrog_kvmserver.Python.Numeral.{codes}

-- The UTF-8 bytes of a code point.
unfoldable pub utf8_char : ℕ → List ℕ
utf8_char c =
    if ltb c 128
    then c ∷ []
    else if ltb c 2048
    then (192 + c / 64) ∷ (128 + c % 64) ∷ []
    else if ltb c 65536
    then (224 + c / 4096) ∷ (128 + c / 64 % 64) ∷ (128 + c % 64) ∷ []
    else (240 + c / 262144) ∷ (128 + c / 4096 % 64) ∷ (128 + c / 64 % 64) ∷ (128 + c % 64) ∷ []

utf8_codes : List ℕ → List ℕ
utf8_codes [] = []
utf8_codes (c ∷ cs) = utf8_char c ++ utf8_codes cs

unfoldable pub utf8 : String → List ℕ
unfolding utf8_codes utf8_char
utf8 s = utf8_codes (codes s)

abbrev pub alphabet : String
alphabet = "ABCDEFGHIJKLMNOPQRSTUVWXYZabcdefghijklmnopqrstuvwxyz0123456789+/"

unfoldable pub digit : ℕ → Char
digit n = char_at alphabet n

infixr 67 ◌∷ₛ◌
abbrev ◌∷ₛ◌ : Char → String → String
c ∷ₛ s = String.◌∷◌ c s

unfoldable pub b64encode : List ℕ → String
b64encode [] = ""
b64encode (a ∷ []) = digit (a / 4) ∷ₛ digit (a % 4 * 16) ∷ₛ "=="
b64encode (a ∷ b ∷ []) = digit (a / 4) ∷ₛ digit (a % 4 * 16 + b / 16) ∷ₛ digit (b % 16 * 4) ∷ₛ "="
b64encode (a ∷ b ∷ c ∷ rest) =
    digit (a / 4)
    ∷ₛ digit (a % 4 * 16 + b / 16)
    ∷ₛ digit (b % 16 * 4 + c / 64)
    ∷ₛ digit (c % 64)
    ∷ₛ b64encode rest

minioadmin : b64encode (utf8 "minioadmin") ≡ "bWluaW9hZG1pbg=="
unfolding b64encode digit utf8
minioadmin = refl
