-- ===== src/Python/Format.antt =====
-- `template.format(**values)` on code points, by the scanner of CPython: literal text, doubled
-- braces, and replacement fields.
pub mod Laws
use kubefrog_kvmserver.Prelude.{
  ℕ, zero, suc, Bool, true, ◌||◌, List, [], ◌∷◌, ◌++◌, any, ◌==◌, nat_eq, if◌then◌else◌,
}
use kubefrog_kvmserver.Python.Errors.{Result, ok, err, value_error, ◌>>=◌}

-- Where the scanner stands; the codes are those of the field so far, and the number counts open
-- braces in a format specification.
pub data Place : Type 0 where
  literal opened closed : Place
  in_name in_brackets in_conversion : List ℕ → Place
  in_spec : ℕ → List ℕ → Place

-- The text of a field ended; the rest follows.
abbrev pub then_text : Result (List ℕ) → Result (List ℕ) → Result (List ℕ)
then_text value rest = do v ← value; r ← rest; ok (v ++ r)

module _ (field : List ℕ → Result (List ℕ)) where
  -- A character of a field's name, with what the scan gives from each place that may follow.
  abbrev pub name_char : List ℕ → ℕ → (Place → Result (List ℕ)) → Result (List ℕ)
  name_char name c go =
      if c == b'}'
      then then_text (field name) (go literal)
      else if c == b'{'
      then err value_error
      else if c == b'['
      then go (in_brackets (name ++ c ∷ []))
      else if c == b':'
      then go (in_spec 0 (name ++ c ∷ []))
      else if c == b'!'
      then go (in_conversion (name ++ c ∷ []))
      else go (in_name (name ++ c ∷ []))

  abbrev pub spec_close : ℕ → List ℕ → (Place → Result (List ℕ)) → Result (List ℕ)
  spec_close zero text go = then_text (field text) (go literal)
  spec_close (suc depth) text go = go (in_spec depth (text ++ b'}' ∷ []))

  -- One character at a place.
  abbrev pub scan_char : Place → ℕ → (Place → Result (List ℕ)) → Result (List ℕ)
  scan_char literal c go =
      if c == b'{'
      then go opened
      else if c == b'}'
      then go closed
      else then_text (ok (c ∷ [])) (go literal)
  scan_char opened c go =
      if c == b'{' then then_text (ok (c ∷ [])) (go literal) else name_char [] c go
  scan_char closed c go =
      if c == b'}' then then_text (ok (c ∷ [])) (go literal) else err value_error
  scan_char (in_name name) c go = name_char name c go
  scan_char (in_brackets name) c go =
      if c == b']' then go (in_name (name ++ c ∷ [])) else go (in_brackets (name ++ c ∷ []))
  scan_char (in_conversion text) c go = go (in_spec 0 (text ++ c ∷ []))
  scan_char (in_spec depth text) c go =
      if c == b'{'
      then go (in_spec (suc depth) (text ++ c ∷ []))
      else if c == b'}'
      then spec_close depth text go
      else go (in_spec depth (text ++ c ∷ []))

  -- At the end only literal text may be open: any other place is a `ValueError`.
  unfoldable pub scan : Place → List ℕ → Result (List ℕ)
  scan literal [] = ok []
  scan _ [] = err value_error
  scan place (c ∷ rest) = scan_char place c (λ next. scan next rest)

  abbrev pub format_text : List ℕ → Result (List ℕ)
  format_text template = scan literal template

-- Every brace doubled.
abbrev pub escape_braces : List ℕ → List ℕ
escape_braces [] = []
escape_braces (c ∷ rest) =
    let escaped = escape_braces rest in
    if c == b'{' || c == b'}' then c ∷ c ∷ escaped else c ∷ escaped
