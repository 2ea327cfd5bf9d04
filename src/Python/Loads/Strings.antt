-- ===== src/Python/Loads/Strings.antt =====
-- A text that `json.dumps` wrote is read back.
use Prim.Native.Char.{Char, code}
use kubefrog_kvmserver.Prelude.{
  ℕ, zero, suc, ◌<◌, ◌≤◌, String, ◌≡◌, refl, ap, ◌∙◌, sym, Bool, true, false, ◌&&◌, List, ◌∷◌, ◌++◌,
  some, ltb, leb, ◌==◌, nat_eq, if◌then◌else◌, arith, nat_beq_iff, length,
}
use kubefrog_kvmserver.Python.Numeral.{codes, codes-append_before}
use kubefrog_kvmserver.Python.Dumps.{one, escape_code, escaped}
use kubefrog_kvmserver.Python.Loads.Text.{escape, letter, scanned, step, letters}
use kubefrog_kvmserver.Python.Loads.Escapes.{scanned-code, step-escape_unit, step-pair}

pub if_split {ℓ κ} :
    {A : Type ℓ} (P : A → Type κ) (b : Bool) (x y : A)
    → (b ≡ true → P x)
    → (b ≡ false → P y)
    → P (if b then x else y)
if_split P true x y f g = f refl
if_split P false x y f g = g refl

-- A text that is read as the number of a character.
abbrev ReadsAs : Char → List ℕ → String → Type 0
ReadsAs c tail s = step (codes s ++ tail) ≡ letter c tail

abbreviated :
    (c : Char) (tail : List ℕ) (s : String) (k : ℕ)
    → step (codes s ++ tail) ≡ scanned (some (k, tail))
    → (code c == k) ≡ true
    → ReadsAs c tail s
abbreviated c tail s k h e =
    h ∙ ap (λ n. scanned (some (n, tail))) (sym ((nat_beq_iff _ k).0 e)) ∙ scanned-code c tail

step-plain :
    (c : Char) (tail : List ℕ)
    → (code c == b'"') ≡ false
    → (code c == 92) ≡ false
    → 32 ≤ code c
    → step (code c ∷ tail) ≡ letter c tail
unfolding step
step-plain c tail no_quote no_escape printable =
    let ordinary : ltb (code c) 32 ≡ false = ground arith in
    rw (no_quote, no_escape, ordinary) (scanned-code c tail)

-- Every character is read back from what is written for it.
pub step-escape_code :
    (c : Char) (tail : List ℕ) → step (codes (escape_code (code c) c) ++ tail) ≡ letter c tail
unfolding escape_code step escape
step-escape_code c tail =
    let P = ReadsAs c tail in
    if_split P _ _ _ (abbreviated c tail "\\\"" b'"' refl) λ no_quote.
      if_split P _ _ _ (abbreviated c tail "\\\\" 92 refl) λ no_escape.
        if_split P _ _ _ (abbreviated c tail "\\n" 10 refl) λ _.
          if_split P _ _ _ (abbreviated c tail "\\r" 13 refl) λ _.
            if_split P _ _ _ (abbreviated c tail "\\t" 9 refl) λ _.
              if_split P _ _ _ (abbreviated c tail "\\f" 12 refl) λ _.
                if_split P _ _ _ (abbreviated c tail "\\b" 8 refl) λ _.
                  if_split P (leb 32 (code c) && leb (code c) 126) (one c) _
                    (λ printable. step-plain c tail no_quote no_escape (ground arith))
                    λ _.
                      if_split P (ltb (code c) 65536) _ _
                        (λ small. step-escape_unit c tail (ground arith))
                        (λ large. step-pair c tail (ground arith))

-- A text is read back up to its closing quote, on fuel for its characters and the quote.
pub letters-escaped :
    (n : ℕ) (s : String) (tail : List ℕ)
    → length (codes s) < n
    → letters n (codes (escaped s) ++ b'"' ∷ tail) ≡ some (s, tail)
unfolding letters escaped
letters-escaped zero s tail enough = absurd (omega arith)
letters-escaped (suc n) String.[] tail enough = refl
letters-escaped (suc n) (String.◌∷◌ c s) tail enough =
    rw
      (
        codes-append_before (escape_code (code c) c) (escaped s),
        step-escape_code c _,
        letters-escaped n s tail (omega arith),
      )
      refl
