-- ===== src/SyncSeaweed/Exchange.antt =====
-- A whole exchange with sync_seaweed.py: the caller writes JSON and reads JSON.
use kubefrog_kvmserver.Prelude.{ℕ, String, ◌≡◌, refl, sym, ◌∙◌, ap, true, List, [], ◌∷◌}
use kubefrog_kvmserver.Python.Errors.{Error, Result, ok, err}
use kubefrog_kvmserver.Python.Exec.{pure, resume}
use kubefrog_kvmserver.Python.Json.{Json}
use kubefrog_kvmserver.Python.Json.Literal.{dict}
use kubefrog_kvmserver.Python.Base64.{utf8}
use kubefrog_kvmserver.Python.Dumps.{dumps}
use kubefrog_kvmserver.Python.Loads.{loads, loads-dumps}
use kubefrog_kvmserver.Python.Loads.Bytes.{Encoding}
use kubefrog_kvmserver.Python.Loads.Plain.{is_plain}
use kubefrog_kvmserver.Controller.Http.{Response, json_response}
use kubefrog_kvmserver.Controller.Http.Posted.{posted, read_body-posted}
use kubefrog_kvmserver.SyncSeaweed.Sync.{Iam, World, sync, do_post}
use kubefrog_kvmserver.SyncSeaweed.Plain.{sync-plain}

-- What a caller asks with.
abbrev pub question : Json → Json → Json
question object attachments = dict (("object", object) ∷ ("attachments", attachments) ∷ [])

question-plain :
    (object attachments : Json)
    → is_plain object ≡ true
    → is_plain attachments ≡ true
    → is_plain (question object attachments) ≡ true
unfolding is_plain
question-plain object attachments po pa = rw (po, pa) refl

module _ (I : Iam) (repr : Json → String) where
  -- What the handler does with such a request, whether `sync` returns or raises.
  do_post-sync :
      (loads : List ℕ → Result Json) (object attachments : Json) (w : World I repr)
      → loads (utf8 (dumps (question object attachments))) ≡ ok (question object attachments)
      → let o = sync I repr object attachments w in
        do_post I repr loads (posted (question object attachments)) w
        ≡ resume o.0 (λ r. pure (json_response r)) o.1
  unfolding do_post
  do_post-sync loads object attachments w read =
      rw (read_body-posted (question object attachments), read) refl

  do_post-question :
      (loads : List ℕ → Result Json) (object attachments r : Json) (w : World I repr)
      → loads (utf8 (dumps (question object attachments))) ≡ ok (question object attachments)
      → (sync I repr object attachments w).0 ≡ ok r
      → do_post I repr loads (posted (question object attachments)) w
        ≡ (ok (json_response r), (sync I repr object attachments w).1)
  do_post-question loads object attachments r w read returned =
      do_post-sync loads object attachments w read ∙ rw returned refl

  responded :
      (o : Result Json × World I repr) (response : Response) (after : World I repr)
      → resume o.0 (λ r. pure (json_response r)) o.1 ≡ (ok response, after)
      → (r : Json) × (o ≡ (ok r, after)) × (response ≡ json_response r)
  responded (ok r, w) response after h = (r, cc h, cc h)
  responded (err e, w) response after h = cc h

  raised :
      (o : Result Json × World I repr) (e : Error) (after : World I repr)
      → resume o.0 (λ r. pure (json_response r)) o.1 ≡ (err e, after)
      → o ≡ (err e, after)
  raised (ok r, w) e after h = cc h
  raised (err e', w) e after h = cc h

  -- A caller that posts a namespace and the attachments to sync_seaweed.py as JSON, without floats and
  -- with distinct keys, for which `sync` returns, gets a response with status 200, with the lines and
  -- the state of the service that `sync` leaves; the caller reads from its body the value that `sync`
  -- returned.
  pub do_post-delivers :
      (other : Encoding → List ℕ → Result (List ℕ)) (float_repr : List ℕ → String)
      (object attachments r : Json) (w : World I repr)
      → is_plain object ≡ true
      → is_plain attachments ≡ true
      → (sync I repr object attachments w).0 ≡ ok r
      → (response : Response) × (do_post I repr
            (loads other float_repr)
            (posted (question object attachments))
            w
          ≡ (ok response, (sync I repr object attachments w).1))
        × (response.code ≡ 200)
        × (loads other float_repr response.body ≡ ok r)
  do_post-delivers other float_repr object attachments r w po pa returned = (
    json_response r,
    do_post-question (loads other float_repr) object attachments r w
        (loads-dumps other float_repr (question object attachments)
          (question-plain object attachments po pa))
        returned,
    refl,
    loads-dumps other float_repr r (sync-plain I repr object attachments r w po pa returned),
  )

  -- The converse: what a caller reads in a response is what `sync` returned.
  pub do_post-returned :
      (other : Encoding → List ℕ → Result (List ℕ)) (float_repr : List ℕ → String)
      (object attachments r : Json) (w after : World I repr) (response : Response)
      → is_plain object ≡ true
      → is_plain attachments ≡ true
      → do_post I repr (loads other float_repr) (posted (question object attachments)) w
        ≡ (ok response, after)
      → loads other float_repr response.body ≡ ok r
      → sync I repr object attachments w ≡ (ok r, after)
  do_post-returned other float_repr object attachments r w after response po pa sent read =
      let asked = do_post-sync (loads other float_repr) object attachments w (
        loads-dumps other float_repr (question object attachments)
          (question-plain object attachments po pa)) in
      let (d, e, is_response) =
        responded (sync I repr object attachments w) response after (sym asked ∙ sent) in
      let same : d ≡ r = cc (
        is_response,
        read,
        loads-dumps other float_repr d
            (sync-plain I repr object attachments d w po pa (ap (λ o. o.0) e)),
      ) in
      rw (← same) e

  -- A handler that raises has raised in `sync`.
  pub do_post-raised :
      (other : Encoding → List ℕ → Result (List ℕ)) (float_repr : List ℕ → String)
      (object attachments : Json) (e : Error) (w after : World I repr)
      → is_plain object ≡ true
      → is_plain attachments ≡ true
      → do_post I repr (loads other float_repr) (posted (question object attachments)) w
        ≡ (err e, after)
      → sync I repr object attachments w ≡ (err e, after)
  do_post-raised other float_repr object attachments e w after po pa sent =
      let asked = do_post-sync (loads other float_repr) object attachments w (
        loads-dumps other float_repr (question object attachments)
          (question-plain object attachments po pa)) in
      raised (sync I repr object attachments w) e after (sym asked ∙ sent)
