-- ===== src/Python/Format/Laws.antt =====
-- `format` against a reading of templates as parts: text, and fields with a plain name.
use mathlib.Core.List.{append_assoc, append-nil}
use kubefrog_kvmserver.Prelude.{
  ℕ, ◌≡◌, refl, ◌∙◌, ap, Bool, true, not, ◌||◌, List, [], ◌∷◌, ◌++◌, all, All, arith, ◌==◌, nat_eq,
}
use kubefrog_kvmserver.Python.Errors.{Result, ok}
use kubefrog_kvmserver.Python.Format.{
  Place, literal, opened, in_name, name_char, scan_char, scan, then_text, format_text,
  escape_braces,
}

pub data Part : Type 0 where
  text : List ℕ → Part
  value : List ℕ → Part

-- How a part is written in a template.
abbrev pub written : Part → List ℕ
written (text s) = escape_braces s
written (value name) = b'{' ∷ name ++ b'}' ∷ []

abbrev pub template_of : List Part → List ℕ
template_of [] = []
template_of (part ∷ parts) = written part ++ template_of parts

abbrev pub is_special : ℕ → Bool
is_special c = c == b'{' || c == b'}' || c == b'[' || c == b':' || c == b'!'

-- The name of a field has no character that ends it.
abbrev pub IsPlain : Part → Type 0
IsPlain (text s) = Unit
IsPlain (value name) = all (λ c. not (is_special c)) name ≡ true

module _ (field : List ℕ → Result (List ℕ)) where
  -- What the parts stand for, in order; the first field without a value raises.
  abbrev pub filled : List Part → Result (List ℕ)
  filled [] = ok []
  filled (text s ∷ parts) = then_text (ok s) (filled parts)
  filled (value name ∷ parts) = then_text (field name) (filled parts)

  then_text-cons :
      (c : ℕ) (s : List ℕ) (rest : Result (List ℕ))
      → then_text (ok (c ∷ [])) (then_text (ok s) rest) ≡ then_text (ok (c ∷ s)) rest
  then_text-cons c s rest = ground arith

  scan-escape_braces :
      (s rest : List ℕ)
      → scan field literal (escape_braces s ++ rest) ≡ then_text (ok s) (scan field literal rest)
  unfolding scan
  scan-escape_braces [] rest = ground arith
  scan-escape_braces (c ∷ s) rest = ground (arith, scan-escape_braces s rest)

  name_char_plain :
      (before : List ℕ) (c : ℕ) (go : Place → Result (List ℕ))
      → not (is_special c) ≡ true
      → name_char field before c go ≡ go (in_name (before ++ c ∷ []))
  name_char_plain before c go h = ground arith

  scan-in_name :
      (before name rest : List ℕ)
      → all (λ c. not (is_special c)) name ≡ true
      → scan field (in_name before) (name ++ b'}' ∷ rest)
        ≡ then_text (field (before ++ name)) (scan field literal rest)
  unfolding scan
  scan-in_name before [] rest h = rw append-nil
  scan-in_name before (c ∷ name) rest h =
      name_char_plain before c (λ next. scan field next (name ++ b'}' ∷ rest)) (ground (arith, h))
      ∙ scan-in_name (before ++ c ∷ []) name rest (ground (arith, h))
      ∙ ap (λ n. then_text (field n) (scan field literal rest)) (append_assoc before (c ∷ []) name)

  scan_opened :
      (c : ℕ) (go : Place → Result (List ℕ))
      → not (is_special c) ≡ true
      → scan_char field opened c go ≡ go (in_name (c ∷ []))
  scan_opened c go h = ground arith

  scan-value :
      (name rest : List ℕ)
      → all (λ c. not (is_special c)) name ≡ true
      → scan field opened (name ++ b'}' ∷ rest) ≡ then_text (field name) (scan field literal rest)
  unfolding scan
  scan-value [] rest h = refl
  scan-value (c ∷ name) rest h =
      scan_opened c (λ next. scan field next (name ++ b'}' ∷ rest)) (ground (arith, h))
      ∙ scan-in_name (c ∷ []) name rest (ground (arith, h))

  -- `format` of a written template gives what its parts stand for, or raises what the first field
  -- without a value raises.
  pub format_text-template_of :
      (parts : List Part) → All IsPlain parts → format_text field (template_of parts) ≡ filled parts
  unfolding scan
  format_text-template_of [] h = refl
  format_text-template_of (text s ∷ parts) h =
      scan-escape_braces s (template_of parts)
      ∙ ap (then_text (ok s)) (format_text-template_of parts h.1)
  format_text-template_of (value name ∷ parts) h =
      ap (scan field opened) (append_assoc name (b'}' ∷ []) (template_of parts))
      ∙ scan-value name (template_of parts) h.0
      ∙ ap (then_text (field name)) (format_text-template_of parts h.1)
