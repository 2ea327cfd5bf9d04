-- ===== src/Python/Loads/Ascii.antt =====
-- `json.dumps` writes ASCII, and its UTF-8 bytes are the text itself.
use Prim.Native.Char.{Char, code}
use kubefrog_kvmserver.Prelude.{
  ℕ, suc, ◌+◌, ◌-◌, ◌/◌, ◌%◌, ◌<◌, String, ◌<>◌, ◌≡◌, refl, Bool, true, false, ◌&&◌, List, [], ◌∷◌,
  ltb, leb, ◌==◌, nat_eq, arith, all, All, All-append, for_all_below, for_all_below_lem,
}
use kubefrog_kvmserver.Python.Json.{
  Json, null, bool, num, negative, float, str, arr, obj, Items, nil, cons, Fields, end, field,
  lookup,
}
use kubefrog_kvmserver.Python.Numeral.{codes, codes-append}
use kubefrog_kvmserver.Python.Base64.{utf8}
use kubefrog_kvmserver.Python.Base64.Ascii.{IsAscii, utf8-ascii}
use kubefrog_kvmserver.Python.Dumps.{
  one, dumps, dumps_items, dumps_fields, decimal, quoted, escaped, escape_code, escape_unit,
}
use kubefrog_kvmserver.Python.Loads.Escapes.{hex_code, codes-escape_unit}
use kubefrog_kvmserver.Python.Loads.Strings.{if_split}
use kubefrog_kvmserver.Python.Loads.Digits.{IsDigit, decimal-Numeral, Numeral-All}
use kubefrog_kvmserver.Python.Loads.Plain.{is_plain, is_none, plain_items, plain_fields, both_true}

unfoldable pub AsciiText : String → Type 0
AsciiText s = All IsAscii (codes s)

AsciiText-append : (s t : String) → AsciiText s → AsciiText t → AsciiText (s <> t)
unfolding AsciiText
AsciiText-append s t hs ht = rw codes-append (All-append IsAscii (codes s) (codes t) hs ht)

hex_table : for_all_below (λ d. leb 1 (hex_code d) && ltb (hex_code d) 128) 16 ≡ true
unfolding for_all_below
hex_table = refl

hex_code-IsAscii : (d : ℕ) → d < 16 → IsAscii (hex_code d)
hex_code-IsAscii d small =
    let both = for_all_below_lem _ 16 d small hex_table in
    (ground (arith, both), ground (arith, both))

abbrev is_ascii : ℕ → Bool
is_ascii c = leb 1 c && ltb c 128

all-IsAscii : (l : List ℕ) → all is_ascii l ≡ true → All IsAscii l
all-IsAscii [] h = tt
all-IsAscii (c ∷ l) h =
    let (here, rest) = both_true (leb 1 c && ltb c 128) (all is_ascii l) h in
    ((ground (arith, here), ground (arith, here)), all-IsAscii l rest)

backslash_letter : (c : ℕ) (l : List ℕ) → IsAscii c → All IsAscii l → All IsAscii (92 ∷ c ∷ l)
backslash_letter c l h t = ((omega arith, omega arith), (h, t))

escape_unit-AsciiText : (u : ℕ) → u < 65536 → AsciiText (escape_unit u)
unfolding AsciiText
escape_unit-AsciiText u small = rw codes-escape_unit (
    backslash_letter b'u'
      (hex_code (u / 4096)
        ∷ hex_code (u / 256 % 16)
        ∷ hex_code (u / 16 % 16)
        ∷ hex_code (u % 16)
        ∷ [])
      (omega arith, omega arith)
      (
        hex_code-IsAscii (u / 4096) (omega arith),
        (
          hex_code-IsAscii (u / 256 % 16) (omega arith),
          (
            hex_code-IsAscii (u / 16 % 16) (omega arith),
            (hex_code-IsAscii (u % 16) (omega arith), tt),
          ),
        ),
      ))

AsciiText-codes : (s : String) → All IsAscii (codes s) → AsciiText s
unfolding AsciiText
AsciiText-codes s h = h

literal : (s : String) → all is_ascii (codes s) ≡ true → AsciiText s
literal s h = AsciiText-codes s (all-IsAscii (codes s) h)

escape_code-AsciiText : (c : Char) → AsciiText (escape_code (code c) c)
unfolding escape_code
escape_code-AsciiText c =
    if_split AsciiText (code c == b'"') "\\\"" _ (λ _. literal "\\\"" refl)
      λ _.
        if_split AsciiText (code c == 92) "\\\\" _ (λ _. literal "\\\\" refl)
          λ _.
            if_split AsciiText (code c == 10) "\\n" _ (λ _. literal "\\n" refl)
              λ _.
                if_split AsciiText (code c == 13) "\\r" _ (λ _. literal "\\r" refl)
                  λ _.
                    if_split AsciiText (code c == 9) "\\t" _ (λ _. literal "\\t" refl)
                      λ _.
                        if_split AsciiText (code c == 12) "\\f" _ (λ _. literal "\\f" refl)
                          λ _.
                            if_split AsciiText (code c == 8) "\\b" _ (λ _. literal "\\b" refl)
                              λ _.
                                if_split AsciiText (leb 32 (code c) && leb (code c) 126) (one c) _
                                  (λ printable.
                                    AsciiText-codes (one c) ((ground arith, ground arith), tt))
                                  λ _.
                                    if_split AsciiText (ltb (code c) 65536) _ _
                                      (λ small. escape_unit-AsciiText (code c) (ground arith))
                                      λ _.
                                        AsciiText-append (escape_unit _) (escape_unit _)
                                          (escape_unit-AsciiText
                                            (55296 + (code c - 65536) / 1024 % 1024) (omega arith))
                                          (escape_unit-AsciiText (56320 + (code c - 65536) % 1024)
                                            (omega arith))

escaped-AsciiText : (s : String) → AsciiText (escaped s)
unfolding escaped
escaped-AsciiText String.[] = literal "" refl
escaped-AsciiText (String.◌∷◌ c s) =
    AsciiText-append (escape_code (code c) c) (escaped s) (escape_code-AsciiText c)
      (escaped-AsciiText s)

quoted-AsciiText : (s : String) → AsciiText (quoted s)
unfolding quoted
quoted-AsciiText s =
    AsciiText-append "\"" (escaped s <> "\"") (literal "\"" refl)
      (AsciiText-append (escaped s) "\"" (escaped-AsciiText s) (literal "\"" refl))

digits-IsAscii : (l : List ℕ) → All IsDigit l → All IsAscii l
digits-IsAscii [] h = tt
digits-IsAscii (c ∷ l) (digit, h) =
    ((ground (arith, digit), ground (arith, digit)), digits-IsAscii l h)

decimal-AsciiText : (n : ℕ) → AsciiText (decimal n)
unfolding AsciiText
decimal-AsciiText n = digits-IsAscii _ (Numeral-All n _ (decimal-Numeral n))

member-AsciiText :
    (k : String) (v : Json) (fs : Fields)
    → AsciiText (dumps v)
    → AsciiText (dumps_fields fs)
    → AsciiText (quoted k <> ": " <> dumps v <> dumps_fields fs)
member-AsciiText k v fs hv hf =
    AsciiText-append (quoted k) _ (quoted-AsciiText k)
      (AsciiText-append ": " _ (literal ": " refl) (AsciiText-append (dumps v) _ hv hf))

mutual
  unfolding dumps is_plain

  dumps-AsciiText : (v : Json) → is_plain v ≡ true → AsciiText (dumps v)
  dumps-AsciiText null p = literal "null" refl
  dumps-AsciiText (bool true) p = literal "true" refl
  dumps-AsciiText (bool false) p = literal "false" refl
  dumps-AsciiText (num n) p = decimal-AsciiText n
  dumps-AsciiText (negative n) p =
      AsciiText-append "-" _ (literal "-" refl) (decimal-AsciiText (suc n))
  dumps-AsciiText (float r) p = cc
  dumps-AsciiText (str s) p = quoted-AsciiText s
  dumps-AsciiText (arr nil) p = literal "[]" refl
  dumps-AsciiText (arr (cons x xs)) p =
      let (px, pxs) = both_true (is_plain x) (plain_items xs) p in
      AsciiText-append "[" _ (literal "[" refl)
        (AsciiText-append (dumps x) _ (dumps-AsciiText x px) (items-AsciiText xs pxs))
  dumps-AsciiText (obj end) p = literal "{}" refl
  dumps-AsciiText (obj (field k v fs)) p =
      let (here, pfs) = both_true (is_none (lookup k fs) && is_plain v) (plain_fields fs) p in
      let (_, pv) = both_true (is_none (lookup k fs)) (is_plain v) here in
      AsciiText-append "{" _ (literal "{" refl)
        (member-AsciiText k v fs (dumps-AsciiText v pv) (fields-AsciiText fs pfs))

  items-AsciiText : (xs : Items) → plain_items xs ≡ true → AsciiText (dumps_items xs)
  items-AsciiText nil p = literal "]" refl
  items-AsciiText (cons x xs) p =
      let (px, pxs) = both_true (is_plain x) (plain_items xs) p in
      AsciiText-append ", " _ (literal ", " refl)
        (AsciiText-append (dumps x) _ (dumps-AsciiText x px) (items-AsciiText xs pxs))

  fields-AsciiText : (fs : Fields) → plain_fields fs ≡ true → AsciiText (dumps_fields fs)
  fields-AsciiText end p = literal "}" refl
  fields-AsciiText (field k v fs) p =
      let (here, pfs) = both_true (is_none (lookup k fs) && is_plain v) (plain_fields fs) p in
      let (_, pv) = both_true (is_none (lookup k fs)) (is_plain v) here in
      AsciiText-append ", " _ (literal ", " refl)
        (member-AsciiText k v fs (dumps-AsciiText v pv) (fields-AsciiText fs pfs))

pub dumps-IsAscii : (v : Json) → is_plain v ≡ true → All IsAscii (codes (dumps v))
unfolding AsciiText
dumps-IsAscii v p = dumps-AsciiText v p

-- The bytes that are sent for a value are the characters of its text.
pub utf8-dumps : (v : Json) → is_plain v ≡ true → utf8 (dumps v) ≡ codes (dumps v)
utf8-dumps v p = utf8-ascii (dumps v) (dumps-IsAscii v p)
