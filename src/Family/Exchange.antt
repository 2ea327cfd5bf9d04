-- ===== src/Family/Exchange.antt =====
-- A whole exchange with a controller: the caller writes JSON, `do_POST` reads it, answers with JSON,
-- and the caller reads that.
use kubefrog_kvmserver.Prelude.{ℕ, String, ◌≡◌, refl, true, List, [], ◌∷◌}
use kubefrog_kvmserver.Python.Errors.{Result, ok}
use kubefrog_kvmserver.Python.Json.{Json, index}
use kubefrog_kvmserver.Python.Json.Literal.{dict}
use kubefrog_kvmserver.Python.Base64.{utf8}
use kubefrog_kvmserver.Python.Dumps.{dumps}
use kubefrog_kvmserver.Python.Loads.{loads, loads-dumps}
use kubefrog_kvmserver.Python.Loads.Bytes.{Encoding}
use kubefrog_kvmserver.Python.Loads.Plain.{is_plain}
use kubefrog_kvmserver.Controller.Settings.{Settings}
use kubefrog_kvmserver.Controller.Sync
use kubefrog_kvmserver.Controller.Sync.{Line}
use kubefrog_kvmserver.Controller.Http
use kubefrog_kvmserver.Controller.Http.{Request, Response, read_body, json_response}
use kubefrog_kvmserver.Controller.Http.Posted.{posted, read_body-posted}
use kubefrog_kvmserver.Family.{File, current, variant, sync}
use kubefrog_kvmserver.Family.Status.{sync-variant}
use kubefrog_kvmserver.Family.Plain.{sync-plain}
use kubefrog_kvmserver.Family.Webhook.{do_post-sends}

-- What a caller asks with: the two fields that the file reads.
abbrev pub question : File → Json → Json → Json
question f object observed =
    dict (((variant f).object_key, object) ∷ ((variant f).observed_key, observed) ∷ [])

question-plain :
    (f : File) (object observed : Json)
    → is_plain object ≡ true
    → is_plain observed ≡ true
    → is_plain (question f object observed) ≡ true
unfolding is_plain
question-plain current object observed po pb = rw (po, pb) refl
question-plain _ object observed po pb = rw (po, pb) refl

question-object :
    (f : File) (object observed : Json)
    → index (question f object observed) (variant f).object_key ≡ ok object
question-object current object observed = refl
question-object _ object observed = refl

question-observed :
    (f : File) (object observed : Json)
    → index (question f object observed) (variant f).observed_key ≡ ok observed
question-observed current object observed = refl
question-observed _ object observed = refl

do_post-question :
    (loads : List ℕ → Result Json) (f : File) (s : Settings) (object observed r : Json)
    (log : List Line)
    → loads (utf8 (dumps (question f object observed))) ≡ ok (question f object observed)
    → (Sync.sync (variant f) s object observed log).0 ≡ ok r
    → Http.do_post loads (variant f) s (posted (question f object observed)) log
      ≡ (ok (json_response r), (Sync.sync (variant f) s object observed log).1)
unfolding Http.do_post
do_post-question loads f s object observed r log read answered =
    rw
      (
        read_body-posted (question f object observed),
        read,
        question-object f object observed,
        question-observed f object observed,
        answered,
      )
      refl

-- A caller that posts a namespace and the observed attachments as JSON, without floats and with
-- distinct keys, for which `sync` returns, gets a response with status 200 and the lines that `sync`
-- prints are printed; the caller reads from its body the value that `sync` returned.
pub do_post-exchange :
    (other : Encoding → List ℕ → Result (List ℕ)) (float_repr : List ℕ → String) (f : File)
    (s : Settings) (object observed r : Json) (log : List Line)
    → is_plain object ≡ true
    → is_plain observed ≡ true
    → (sync f s object observed log).0 ≡ ok r
    → (response : Response) × (Http.do_post
          (loads other float_repr)
          (variant f)
          s
          (posted (question f object observed))
          log
        ≡ (ok response, (sync f s object observed log).1))
      × (response.code ≡ 200)
      × (loads other float_repr response.body ≡ ok r)
do_post-exchange other float_repr f s object observed r log po pb h = (
  json_response r,
  rw (sync-variant f) (
      do_post-question (loads other float_repr) f s object observed r log
        (loads-dumps other float_repr (question f object observed)
          (question-plain f object observed po pb))
        (rw (← sync-variant f) h)),
  refl,
  loads-dumps other float_repr r (sync-plain f s object observed r log po h),
)

-- The converse: what a caller reads in a response to such a request is what `sync` returned.
pub do_post-returned :
    (other : Encoding → List ℕ → Result (List ℕ)) (float_repr : List ℕ → String) (f : File)
    (s : Settings) (object observed r : Json) (log : List Line) (response : Response)
    → is_plain object ≡ true
    → is_plain observed ≡ true
    → (Http.do_post
        (loads other float_repr)
        (variant f)
        s
        (posted (question f object observed))
        log).0
      ≡ ok response
    → loads other float_repr response.body ≡ ok r
    → (sync f s object observed log).0 ≡ ok r
do_post-returned other float_repr f s object observed r log response po pb sent read =
    let q = question f object observed in
    let (bytes, received, object', observed', desired, hr, hl, ho, hb, hd, he) =
      do_post-sends (loads other float_repr) f s (posted q) log response sent in
    let same_bytes : bytes ≡ utf8 (dumps q) = cc (hr, read_body-posted q) in
    let same_question : received ≡ q =
      cc
        (hl, same_bytes, loads-dumps other float_repr q (question-plain f object observed po pb)) in
    let same_object : object' ≡ object =
      cc (ho, same_question, question-object f object observed) in
    let same_observed : observed' ≡ observed =
      cc (hb, same_question, question-observed f object observed) in
    let returned : (sync f s object observed log).0 ≡ ok desired =
      rw (same_object, same_observed) at hd in
    let same : desired ≡ r = cc (
      he,
      read,
      loads-dumps other float_repr desired (sync-plain f s object observed desired log po returned),
    ) in
    rw (← same) returned
