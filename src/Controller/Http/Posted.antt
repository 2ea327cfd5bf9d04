-- ===== src/Controller/Http/Posted.antt =====
-- A request that carries a value as JSON, and its reading.
use kubefrog_kvmserver.Prelude.{ℕ, ◌≡◌, ◌≢◌, ap, ◌∙◌, List, [], ◌∷◌, some, length, take-length}
use kubefrog_kvmserver.Python.Errors.{ok}
use kubefrog_kvmserver.Python.Json.{Json}
use kubefrog_kvmserver.Python.Numeral.{int, pos}
use kubefrog_kvmserver.Python.Numeral.Laws.{int-digits}
use kubefrog_kvmserver.Python.Base64.{utf8}
use kubefrog_kvmserver.Python.Dumps.{dumps, decimal}
use kubefrog_kvmserver.Python.Dumps.Decimal.{decimal-digits}
use kubefrog_kvmserver.Python.Loads.Digits.{Numeral, decimal-Numeral, Numeral-All}
use kubefrog_kvmserver.Controller.Http.{Request, read_body}

-- The request that carries a value: its JSON, and the number of its bytes.
abbrev pub posted : Json → Request
posted v = record {
  content_length = some (decimal (length (utf8 (dumps v))));
  body = utf8 (dumps v);
}

Numeral-nonempty : (n : ℕ) (l : List ℕ) → Numeral n l → l ≢ []
Numeral-nonempty n [] h e = absurd h
Numeral-nonempty n (c ∷ l) h e = cc

int-decimal : (n : ℕ) → int (decimal n) ≡ ok (pos n)
int-decimal n =
    int-digits (decimal n) (Numeral-nonempty n _ (decimal-Numeral n))
      (Numeral-All n _ (decimal-Numeral n))
    ∙ ap (λ k. ok (pos k)) (decimal-digits n)

pub read_body-posted : (v : Json) → read_body (posted v) ≡ ok (utf8 (dumps v))
read_body-posted v =
    rw (int-decimal (length (utf8 (dumps v)))) (ap ok (take-length (utf8 (dumps v))))
