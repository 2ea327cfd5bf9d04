-- ===== src/Python/Loads/Text.antt =====
-- The texts of `json.loads`: characters, escapes and surrogate pairs, as in CPython's scanner.
use Prim.Native.Char.{Char}
use kubefrog_kvmserver.Prelude.{
  ℕ, zero, suc, ◌+◌, ◌-◌, ◌*◌, String, ◌≡◌, refl, Bool, ◌&&◌, ◌||◌, List, [], ◌∷◌, Option, none,
  some, ltb, leb, ◌==◌, nat_eq, if◌then◌else◌,
}
use kubefrog_kvmserver.Python.Numeral.{codes}
use kubefrog_kvmserver.Python.Loads.Characters.{char_of}

-- A digit of `\uXXXX`.
unfoldable pub hex_value : ℕ → Option ℕ
hex_value c =
    if leb b'0' c && leb c b'9'
    then some (c - b'0')
    else if leb b'a' c && leb c b'f'
    then some (c - 87)
    else if leb b'A' c && leb c b'F'
    then some (c - 55)
    else none

abbrev pub hex_number : Option ℕ → Option ℕ → Option ℕ → Option ℕ → Option ℕ
hex_number (some a) (some b) (some c) (some d) = some (a * 4096 + b * 256 + c * 16 + d)
hex_number _ _ _ _ = none

abbrev pub Scanned : Type 0 → Type 0
Scanned A = Option (A × List ℕ)

abbrev with_rest : List ℕ → Option ℕ → Scanned ℕ
with_rest rest none = none
with_rest rest (some n) = some (n, rest)

-- Four hexadecimal digits.
unfoldable pub unit : List ℕ → Scanned ℕ
unfolding hex_value
unit (a ∷ b ∷ c ∷ d ∷ rest) =
    with_rest rest (hex_number (hex_value a) (hex_value b) (hex_value c) (hex_value d))
unit _ = none

abbrev pub is_high : ℕ → Bool
is_high u = leb 55296 u && leb u 56319

abbrev pub is_low : ℕ → Bool
is_low u = leb 56320 u && leb u 57343

-- A high surrogate takes a low one, if that follows.
abbrev paired : ℕ → List ℕ → Scanned ℕ → Scanned ℕ
paired u rest none = none
paired u rest (some (l, after)) =
    if is_low l then some (65536 + (u - 55296) * 1024 + (l - 56320), after) else some (u, rest)

unfoldable pub joined : ℕ → List ℕ → Scanned ℕ
unfolding unit
joined u (a ∷ b ∷ rest) =
    if a == 92 && b == b'u' then paired u (a ∷ b ∷ rest) (unit rest) else some (u, a ∷ b ∷ rest)
joined u rest = some (u, rest)

abbrev pub join : Scanned ℕ → Scanned ℕ
join none = none
join (some (u, rest)) = if is_high u then joined u rest else some (u, rest)

-- What follows a backslash.
unfoldable pub escape : List ℕ → Scanned ℕ
escape [] = none
escape (c ∷ rest) =
    if c == b'"' || c == 92 || c == b'/'
    then some (c, rest)
    else if c == b'b'
    then some (8, rest)
    else if c == b'f'
    then some (12, rest)
    else if c == b'n'
    then some (10, rest)
    else if c == b'r'
    then some (13, rest)
    else if c == b't'
    then some (9, rest)
    else if c == b'u'
    then join (unit rest)
    else none

-- What comes next in a text: the quote at its end, or a character, from what was scanned of it.
pub data Step : Type 0 where
  closing : List ℕ → Step
  letter : Char → List ℕ → Step
  broken : Step

abbrev pub letter_or_broken : List ℕ → Option Char → Step
letter_or_broken rest none = broken
letter_or_broken rest (some c) = letter c rest

unfoldable pub scanned : Scanned ℕ → Step
unfolding char_of
scanned none = broken
scanned (some (n, rest)) = letter_or_broken rest (char_of n)

unfoldable pub step : List ℕ → Step
unfolding scanned escape
step [] = broken
step (c ∷ rest) =
    if c == b'"'
    then closing rest
    else if c == 92
    then scanned (escape rest)
    else if ltb c 32
    then broken
    else scanned (some (c, rest))

abbrev before : Char → Scanned String → Scanned String
before c none = none
before c (some (s, rest)) = some (String.◌∷◌ c s, rest)

abbrev pub continued : (List ℕ → Scanned String) → Step → Scanned String
continued scan (closing rest) = some ("", rest)
continued scan (letter c rest) = before c (scan rest)
continued scan broken = none

-- A text up to its closing quote, on fuel for each character and the quote.
unfoldable pub letters : ℕ → List ℕ → Scanned String
unfolding step
letters zero l = none
letters (suc n) l = continued (letters n) (step l)

letters_scanned : letters 10 (codes "a\\u00e9\\ud83d\\ude00\\n\",") ≡ some ("aé😀\n", b',' ∷ [])
unfolding letters unit joined
letters_scanned = refl
