-- ===== src/Family/Webhook.antt =====
-- The webhooks of the four controllers: what they send, and which keys they use.
use kubefrog_kvmserver.Prelude.{ℕ, ◌≡◌, refl, inl, inr, List, []}
use kubefrog_kvmserver.Python.Errors.{Error, Result, ok, err, key_error}
use kubefrog_kvmserver.Python.Exec.{resume-ok, resume_silent, resume_silent_last}
use kubefrog_kvmserver.Python.Json.{Json, index}
use kubefrog_kvmserver.Python.Json.Literal.{list, dict, elements-list}
use kubefrog_kvmserver.Controller.Settings.{Settings}
use kubefrog_kvmserver.Controller.Sync
use kubefrog_kvmserver.Controller.Sync.{Line, reply, status, parent_label}
use kubefrog_kvmserver.Controller.Http
use kubefrog_kvmserver.Controller.Http.{Request, Response, read_body, json_response}
use kubefrog_kvmserver.Controller.Laws.{sync-err, sync-returns}
use kubefrog_kvmserver.Family.{File, new, variant, sync}
use kubefrog_kvmserver.Family.Status.{sync-variant}
use kubefrog_kvmserver.Family.Replies.{attachments_of}

module _ (loads : List ℕ → Result Json) where
  -- In each of the four files, and for any `json.loads`, a request that ends in an exception, whether it
  -- could not be read or `sync` raised, has printed nothing.
  pub do_post-raises_silently :
      (f : File) (s : Settings) (r : Request) (log : List Line) (e : Error)
      → (Http.do_post loads (variant f) s r log).0 ≡ err e
      → (Http.do_post loads (variant f) s r log).1 ≡ log
  unfolding Http.do_post
  do_post-raises_silently f s r log e h =
      resume_silent (read_body r) _ log e
        (λ bytes. resume_silent (loads bytes) _ log e λ received.
          resume_silent (index received (variant f).object_key) _ log e λ object.
            resume_silent (index received (variant f).observed_key) _ log e λ observed.
              resume_silent_last (Sync.sync (variant f) s object observed log) json_response log e
                (sync-err (variant f) s object observed log))
        h

  -- Every response that is sent has the status 200, the content type of JSON, and as its body the
  -- text of what `sync` returned for the two fields of the request's JSON that the file reads; the JSON
  -- is read from as many bytes as the header says.
  pub do_post-sends :
      (f : File) (s : Settings) (r : Request) (log : List Line) (response : Response)
      → (Http.do_post loads (variant f) s r log).0 ≡ ok response
      → (bytes : List ℕ) × (received : Json) × (object : Json) × (observed : Json)
        × (desired : Json) × (read_body r ≡ ok bytes)
        × (loads bytes ≡ ok received)
        × (index received (variant f).object_key ≡ ok object)
        × (index received (variant f).observed_key ≡ ok observed)
        × ((sync f s object observed log).0 ≡ ok desired)
        × (response ≡ json_response desired)
  unfolding Http.do_post
  do_post-sends f s r log response h =
      let (bytes, hr, h1) = resume-ok (read_body r) _ log response h in
      let (received, hl, h2) = resume-ok (loads bytes) _ log response h1 in
      let (object, ho, h3) = resume-ok (index received (variant f).object_key) _ log response h2 in
      let (observed, hb, h4) =
        resume-ok (index received (variant f).observed_key) _ log response h3 in
      let (desired, hd, h5) =
        resume-ok (Sync.sync (variant f) s object observed log).0 _ _ response h4 in
      (bytes, received, object, observed, desired, hr, hl, ho, hb, rw sync-variant hd, cc h5)

-- What a reader of the reply finds under the key of the request's second field: in three of the
-- files the attachments, in sync_new.py no such key.
abbrev pub answer : File → Json → Result Json
answer new r = err (key_error "attachments")
answer f r = ok (list (attachments_of f r))

answer-reply :
    (f : File) (st : Json) (rs : List Json)
    → index (reply (variant f) st rs) (variant f).observed_key ≡ answer f (reply (variant f) st rs)
answer-reply new st rs = refl
answer-reply _ st rs = rw elements-list

-- When `sync` returns for a namespace whose label it could read, its reply has the attachments under
-- the key under which the request has the observed ones, in sync.py, sync-debug-frontend.py and
-- sync_old.py; in sync_new.py the request has them under "attachments" and the reply has no such
-- key.
sync-answers :
    (f : File) (s : Settings) (parent observed label r : Json) (log : List Line)
    → parent_label parent ≡ ok label
    → (sync f s parent observed log).0 ≡ ok r
    → index r (variant f).observed_key ≡ answer f r
sync-answers f s parent observed label r log hl h =
    elim (sync-returns (variant f) s parent observed label r log hl (rw (← sync-variant) h)) [
      | inl (_, e) ↦ rw e (answer-reply f (dict []) [])
      | inr (_, (ready, namespace, e)) ↦ rw e (answer-reply f (status ready) _)
    ]
