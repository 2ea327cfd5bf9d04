-- ===== src/Python/Base64/Ascii.antt =====
-- A text of ASCII is its own UTF-8 encoding.
use kubefrog_kvmserver.Prelude.{
  ℕ, ◌<◌, ◌≤◌, String, ◌≡◌, refl, true, List, [], ◌∷◌, ltb, All, arith,
}
use kubefrog_kvmserver.Python.Numeral.{codes}
use kubefrog_kvmserver.Python.Base64.{utf8, utf8_char, utf8_codes}

-- A code point of ASCII, other than zero.
abbrev pub IsAscii : ℕ → Type 0
IsAscii c = (1 ≤ c) × (c < 128)

utf8_char-ascii : (c : ℕ) → IsAscii c → utf8_char c ≡ c ∷ []
unfolding utf8_char
utf8_char-ascii c h = let small : ltb c 128 ≡ true = ground (arith, h) in rw small refl

utf8_codes-ascii : (l : List ℕ) → All IsAscii l → utf8_codes l ≡ l
unfolding utf8_codes
utf8_codes-ascii [] h = refl
utf8_codes-ascii (c ∷ l) (hc, h) = rw (utf8_char-ascii c hc, utf8_codes-ascii l h) refl

pub utf8-ascii : (s : String) → All IsAscii (codes s) → utf8 s ≡ codes s
unfolding utf8
utf8-ascii s h = utf8_codes-ascii (codes s) h
