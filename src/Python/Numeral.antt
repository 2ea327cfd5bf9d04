-- ===== src/Python/Numeral.antt =====
-- `int(text)` and the decimal digits of a number.
pub mod Laws
use Prim.Native.Char.{code}
use Prim.Native.String.append
use kubefrog_kvmserver.Prelude.{
  ℕ, zero, suc, ◌+◌, ◌-◌, ◌*◌, String, ◌<>◌, ◌++◌, ap, ◌∙◌, ◌≡◌, refl, Bool, true, false, ◌&&◌,
  ◌||◌, List, [], ◌∷◌, Option, none, some, leb, ◌==◌, nat_eq, if◌then◌else◌,
}
use mathlib.Core.List.{reverse, append_assoc}
use kubefrog_kvmserver.Python.Errors.{Result, ok, err, value_error}

-- `negsuc n` is -(n + 1).
pub data ℤ : Type 0 where
  pos : ℕ → ℤ
  negsuc : ℕ → ℤ

-- The code points of a text.
abbrev pub codes : String → List ℕ
codes String.[] = []
codes (String.◌∷◌ c s) = code c ∷ codes s

pub codes-append : (s t : String) → codes (s <> t) ≡ codes s ++ codes t
codes-append String.[] t = ap codes (append.nil t)
codes-append (String.◌∷◌ c s) t =
    ap codes (append.cons c s t) ∙ ap (λ l. code c ∷ l) (codes-append s t)

pub codes-append_before :
    (s t : String) (tail : List ℕ) → codes (s <> t) ++ tail ≡ codes s ++ (codes t ++ tail)
codes-append_before s t tail =
    ap (λ l. l ++ tail) (codes-append s t) ∙ append_assoc (codes s) (codes t) tail

is_space : ℕ → Bool
is_space c = c == 32 || (leb 9 c && leb c 13)

strip_front : List ℕ → List ℕ
strip_front [] = []
strip_front (c ∷ cs) = let rest = strip_front cs in if is_space c then rest else c ∷ cs

is_digit : ℕ → Bool
is_digit c = leb b'0' c && leb c b'9'

-- Digits, with single underscores between two of them. The flag says that a digit came last.
digits_value : ℕ → Bool → List ℕ → Option ℕ
digits_value n true [] = some n
digits_value n false [] = none
digits_value n after_digit (c ∷ cs) =
    let number = digits_value (n * 10 + (c - b'0')) true cs in
    let underscore = digits_value n false cs in
    if is_digit c then number else if c == b'_' && after_digit then underscore else none

minus : ℕ → ℤ
minus zero = pos 0
minus (suc n) = negsuc n

signed : List ℕ → Option ℤ
signed [] = none
signed (c ∷ cs) =
    if c == b'-'
    then elim (digits_value 0 false cs) [ none ↦ none | some n ↦ some (minus n) ]
    else if c == b'+'
    then elim (digits_value 0 false cs) [ none ↦ none | some n ↦ some (pos n) ]
    else elim (digits_value 0 false (c ∷ cs)) [ none ↦ none | some n ↦ some (pos n) ]

abbrev raise_none : Option ℤ → Result ℤ
raise_none none = err value_error
raise_none (some z) = ok z

-- `int(text)` for ASCII text: spaces at both ends, a sign, digits with underscores.
unfoldable pub int : String → Result ℤ
unfolding is_space strip_front is_digit digits_value minus signed
int s = raise_none (signed (reverse (strip_front (reverse (strip_front (codes s))))))

int_port : int " 8_080\n" ≡ ok (pos 8080)
unfolding int
int_port = refl
