-- ===== src/KnativeApp.antt =====
-- knative-serving/app-test/app.py: a web application that greets a target.
use kubefrog_kvmserver.Prelude.{String, ◌<>◌, Bool, true, none, some}
use kubefrog_kvmserver.Python.Errors.{Result, ok, ◌>>=◌}
use kubefrog_kvmserver.Python.Numeral.{ℤ, pos, int}
use kubefrog_kvmserver.Controller.Settings.{Env, environ_get}

-- The answer to `/`.
abbrev pub hello_world : Env → String
hello_world env = "Hello " <> environ_get env "TARGET" "World" <> "!\n"

-- `int(os.environ.get('PORT', 8080))`
abbrev pub port : Env → Result ℤ
port env = elim (env "PORT") [ none ↦ ok (pos 8080) | some text ↦ int text ]

-- The arguments of `app.run`.
pub record AppRun : Type 0 where
  pub debug : Bool
  pub host : String
  pub port : ℤ

-- The program, up to the server that it runs.
unfoldable pub main : Env → Result AppRun
main env = do number ← port env; ok (record { debug = true; host = "0.0.0.0"; port = number })
