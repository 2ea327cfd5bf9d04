-- ===== src/Controller/Http.antt =====
-- `do_POST`: the webhook around `sync`, for any `json.loads`; Family/Exchange takes the one of
-- Python/Loads.
pub mod Bounds
pub mod Posted
use kubefrog_kvmserver.Prelude.{ℕ, zero, suc, String, Option, none, some, List, [], ◌∷◌, take}
use kubefrog_kvmserver.Python.Errors.{Result, ok, err, type_error, value_error, ◌>>=◌ as ◌|>◌}
use kubefrog_kvmserver.Python.Exec.{Exec, pure, lift, ◌>>=◌}
use kubefrog_kvmserver.Python.Json.{Json, index}
use kubefrog_kvmserver.Python.Numeral.{ℤ, pos, negsuc, int}
use kubefrog_kvmserver.Python.Base64.{utf8}
use kubefrog_kvmserver.Python.Dumps.{dumps}
use kubefrog_kvmserver.Controller.Settings.{Settings}
use kubefrog_kvmserver.Controller.Sync.{Variant, Line, sync}

-- The header `content-length`, if it was sent, and the bytes on the connection.
pub record Request : Type 0 where
  pub content_length : Option String
  pub body : List ℕ

pub record Response : Type 0 where
  pub code : ℕ
  pub headers : List (String × String)
  pub body : List ℕ

-- `rfile.read(n)`: at most n bytes, for -1 all of them; a smaller number is a `ValueError`.
abbrev pub read : ℤ → List ℕ → Result (List ℕ)
read (pos n) bytes = ok (take n bytes)
read (negsuc zero) bytes = ok bytes
read (negsuc (suc n)) bytes = err value_error

-- `int(header)`: `int(None)` is a `TypeError`.
abbrev pub int_header : Option String → Result ℤ
int_header none = err type_error
int_header (some t) = int t

-- `self.rfile.read(int(self.headers.get("content-length")))`
abbrev pub read_body : Request → Result (List ℕ)
read_body r = int_header r.content_length |> λ n. read n r.body

-- What is sent for a value: status 200 and the JSON text.
abbrev pub json_response : Json → Response
json_response desired = record {
  code = 200;
  headers = ("Content-type", "application/json") ∷ [];
  body = utf8 (dumps desired);
}

module _ (loads : List ℕ → Result Json) where
  unfoldable pub do_post : Variant → Settings → Request → Exec (List Line) Response
  do_post v s r = do
    bytes ← lift (read_body r)
    received ← lift (loads bytes)
    object ← lift (index received v.object_key)
    observed ← lift (index received v.observed_key)
    desired ← sync v s object observed
    pure (json_response desired)
