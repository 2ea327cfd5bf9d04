-- ===== src/Tests/Exchange.antt =====
-- A whole exchange with sync.py.
use kubefrog_kvmserver.Prelude.{ℕ, String, ◌≡◌, refl, true, List, []}
use kubefrog_kvmserver.Python.Errors.{Result, ok, err, value_error}
use kubefrog_kvmserver.Python.Loads.{loads}
use kubefrog_kvmserver.Python.Loads.Bytes.{Encoding}
use kubefrog_kvmserver.Python.Loads.Plain.{is_plain}
use kubefrog_kvmserver.Controller.Http
use kubefrog_kvmserver.Controller.Http.{Response}
use kubefrog_kvmserver.Family.{current, variant, sync}
use kubefrog_kvmserver.Controller.Http.Posted.{posted}
use kubefrog_kvmserver.Family.Exchange.{question, do_post-exchange}
use kubefrog_kvmserver.Tests.Profile.{team, parent, observed, answered, team-answered}

-- A runtime without other encodings, and without floats.
abbrev pub undecoded : Encoding → List ℕ → Result (List ℕ)
undecoded encoding bytes = err value_error

abbrev pub float_repr : List ℕ → String
float_repr digits = "0.0"

pub parent-plain : is_plain parent ≡ true
unfolding is_plain
parent-plain = refl

observed-plain : is_plain observed ≡ true
unfolding is_plain
observed-plain = refl

do_post-exchange_example :
    (response : Response) × (Http.do_post
        (loads undecoded float_repr)
        (variant current)
        team
        (posted (question current parent observed))
        []
      ≡ (ok response, (sync current team parent observed []).1))
    × (response.code ≡ 200)
    × (loads undecoded float_repr response.body ≡ ok answered)
do_post-exchange_example =
    do_post-exchange undecoded float_repr current team parent observed answered [] parent-plain
      observed-plain team-answered
