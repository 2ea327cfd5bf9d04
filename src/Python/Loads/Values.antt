-- ===== src/Python/Loads/Values.antt =====
-- The values of `json.loads`, as CPython's scanner reads them: whitespace, literals, texts, numbers,
-- lists and dicts. Nesting is not bounded here.
use kubefrog_kvmserver.Prelude.{
  ℕ, zero, suc, String, ◌≡◌, refl, Bool, true, false, ◌||◌, List, [], ◌∷◌, Option, none, some, ◌==◌,
  nat_eq, string_eq, if◌then◌else◌, length,
}
use kubefrog_kvmserver.Python.Errors.{Result, ok, err, value_error}
use kubefrog_kvmserver.Python.Json.{
  Json, null, bool, float, str, arr, obj, Items, nil, cons, Fields, end, field, lookup,
}
use kubefrog_kvmserver.Python.Json.Literal.{dict, list}
use kubefrog_kvmserver.Python.Numeral.{codes}
use kubefrog_kvmserver.Python.Loads.Text.{Scanned, letters}
use kubefrog_kvmserver.Python.Loads.Numbers.{is_digit, number}

abbrev pub is_white : ℕ → Bool
is_white c = c == 32 || c == 9 || c == 10 || c == 13

unfoldable pub skip : List ℕ → List ℕ
skip [] = []
skip (c ∷ l) = let rest = skip l in if is_white c then rest else c ∷ l

-- The rest behind a word, if that is what comes.
abbrev pub behind : List ℕ → List ℕ → Option (List ℕ)
behind [] l = some l
behind (w ∷ word) [] = none
behind (w ∷ word) (c ∷ l) = let rest = behind word l in if c == w then rest else none

-- How a value starts.
pub data Lead : Type 0 where
  text_at : List ℕ → Lead
  list_at : List ℕ → Lead
  dict_at : List ℕ → Lead
  value_at : Scanned Json → Lead

abbrev pub word : Json → Option (List ℕ) → Scanned Json
word v none = none
word v (some rest) = some (v, rest)

module _ (float_repr : List ℕ → String) where
  -- -Infinity, or a number with a sign.
  abbrev pub below_zero : List ℕ → Option (List ℕ) → Scanned Json
  below_zero l none = number float_repr true l
  below_zero l (some rest) = some (float "-inf", rest)

  unfoldable pub lead : List ℕ → Lead
  lead [] = value_at none
  lead (c ∷ l) =
      if c == b'"'
      then text_at l
      else if c == b'['
      then list_at l
      else if c == b'{'
      then dict_at l
      else if c == b'-'
      then value_at (below_zero l (behind (codes "Infinity") l))
      else if is_digit c
      then value_at (number float_repr false (c ∷ l))
      else if c == b'n'
      then value_at (word null (behind (codes "ull") l))
      else if c == b't'
      then value_at (word (bool true) (behind (codes "rue") l))
      else if c == b'f'
      then value_at (word (bool false) (behind (codes "alse") l))
      else if c == b'N'
      then value_at (word (float "nan") (behind (codes "aN") l))
      else if c == b'I'
      then value_at (word (float "inf") (behind (codes "nfinity") l))
      else value_at none

-- What comes behind a value in a list or dict.
pub data Separator : Type 0 where
  ended : List ℕ → Separator
  comma : List ℕ → Separator
  neither : Separator

unfoldable pub separator : ℕ → List ℕ → Separator
separator close [] = neither
separator close (c ∷ l) = if c == close then ended l else if c == b',' then comma l else neither

-- A list or dict with nothing in it, or the scan of its members.
abbrev pub empty_or : {A : Type 0} → A → (List ℕ → Scanned A) → List ℕ → Separator → Scanned A
empty_or a scan l (ended rest) = some (a, rest)
empty_or a scan l (comma _) = scan l
empty_or a scan l neither = scan l

abbrev pub as_text : Scanned String → Scanned Json
as_text none = none
as_text (some (s, rest)) = some (str s, rest)

abbrev pub as_list : Scanned Items → Scanned Json
as_list none = none
as_list (some (xs, rest)) = some (arr xs, rest)

abbrev pub as_dict : Scanned Fields → Scanned Json
as_dict none = none
as_dict (some (fs, rest)) = some (obj fs, rest)

abbrev pub text_from : List ℕ → Scanned String
text_from l = letters (suc (length l)) l

abbrev pub value_of : (List ℕ → Scanned Items) → (List ℕ → Scanned Fields) → Lead → Scanned Json
value_of items fields (text_at l) = as_text (text_from l)
value_of items fields (list_at l) = as_list (empty_or nil items l (separator b']' (skip l)))
value_of items fields (dict_at l) = as_dict (empty_or end fields l (separator b'}' (skip l)))
value_of items fields (value_at r) = r

abbrev pub with_item : Json → Scanned Items → Scanned Items
with_item x none = none
with_item x (some (xs, rest)) = some (cons x xs, rest)

abbrev pub more_items : (List ℕ → Scanned Items) → Json → Separator → Scanned Items
more_items items x (ended rest) = some (cons x nil, rest)
more_items items x (comma rest) = with_item x (items rest)
more_items items x neither = none

abbrev pub items_with : (List ℕ → Scanned Items) → Scanned Json → Scanned Items
items_with items none = none
items_with items (some (x, rest)) = more_items items x (separator b']' (skip rest))

abbrev pub without : String → Fields → Fields
without k end = end
without k (field j v fs) = let rest = without k fs in if j == k then rest else field j v rest

-- A member in front of others: of two with one key, the place is the first's and the value the last's.
abbrev pub put_first : String → Json → Fields → Option Json → Fields
put_first k v fs none = field k v fs
put_first k v fs (some w) = field k w (without k fs)

abbrev pub with_field : String → Json → Scanned Fields → Scanned Fields
with_field k v none = none
with_field k v (some (fs, rest)) = some (put_first k v fs (lookup k fs), rest)

abbrev pub more_fields : (List ℕ → Scanned Fields) → String → Json → Separator → Scanned Fields
more_fields fields k v (ended rest) = some (field k v end, rest)
more_fields fields k v (comma rest) = with_field k v (fields rest)
more_fields fields k v neither = none

abbrev pub field_value : (List ℕ → Scanned Fields) → String → Scanned Json → Scanned Fields
field_value fields k none = none
field_value fields k (some (v, rest)) = more_fields fields k v (separator b'}' (skip rest))

abbrev pub colon : String → List ℕ → Scanned String
colon k [] = none
colon k (c ∷ l) = if c == b':' then some (k, l) else none

abbrev pub colon_behind : Scanned String → Scanned String
colon_behind none = none
colon_behind (some (k, rest)) = colon k (skip rest)

-- A key and its colon.
unfoldable pub key : List ℕ → Scanned String
unfolding skip
key [] = none
key (c ∷ l) = if c == b'"' then colon_behind (text_from l) else none

abbrev pub fields_with :
    (List ℕ → Scanned Json) → (List ℕ → Scanned Fields) → Scanned String → Scanned Fields
fields_with value fields none = none
fields_with value fields (some (k, rest)) = field_value fields k (value rest)

module _ (float_repr : List ℕ → String) where
  -- On fuel, which goes down with every value, item and member.
  unfoldable mutual
    unfolding skip lead separator key

    pub value : ℕ → List ℕ → Scanned Json
    value zero l = none
    value (suc n) l = value_of (items n) (fields n) (lead float_repr (skip l))

    pub items : ℕ → List ℕ → Scanned Items
    items zero l = none
    items (suc n) l = items_with (items n) (value n l)

    pub fields : ℕ → List ℕ → Scanned Fields
    fields zero l = none
    fields (suc n) l = fields_with (value n) (fields n) (key (skip l))

  abbrev all_read : Json → List ℕ → Result Json
  all_read v [] = ok v
  all_read v (c ∷ l) = err value_error

  abbrev pub whole_text : Scanned Json → Result Json
  whole_text none = err value_error
  whole_text (some (v, rest)) = all_read v (skip rest)

  unfoldable pub loads_text : List ℕ → Result Json
  unfolding skip value
  loads_text l = whole_text (value (length l) l)

loads_nested :
    loads_text (λ l. "1.5") (codes " {\"a\": [1, -2, true, null, 1.50], \"b\": {}, \"a\" : []} ")
    ≡ ok (dict (("a", list []) ∷ ("b", dict []) ∷ []))
unfolding loads_text value skip lead separator key letters number
loads_nested = refl
