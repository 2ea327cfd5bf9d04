-- ===== src/Transformer/Order.antt =====
-- Calls of one transformer in any order: which object a response is filed under.
use kubefrog_kvmserver.Prelude.{
  ℕ, map, Bool-cases, inl, inr, String, ◌<>◌, ◌≡◌, refl, sym, ◌∙◌, ap, true, Option, none, some,
  List, [], ◌∷◌, arith, if◌then◌else◌,
}
use kubefrog_kvmserver.Python.Errors.{Result, ok, err, value_error, ◌>>=◌}
use kubefrog_kvmserver.Python.Json.{Json, str, index, is_text}
use kubefrog_kvmserver.Python.Json.Literal.{dict, list}
use kubefrog_kvmserver.Python.Exec.{resume-ok, resume-pure}
use kubefrog_kvmserver.Python.Dumps.{format}
use kubefrog_kvmserver.Transformer.{
  Backend, Pixels, Transformer, record_field, predicted_class, inverted, flatten, grey_values,
  preprocess, preprocess_put, fetch, postprocess,
}

-- The two calls that a server makes for a request; between them others may come.
pub data Call : Type 0 where
  before : Json → Call
  after : Json → Call

-- The key that an event announces: that of an uploaded object in a readable bucket.
abbrev pub announced : Json → Result Json
announced inputs = do
  name ← index inputs "EventName"
  bucket ← record_field inputs "bucket" "name"
  key ← record_field inputs "object" "key"
  if is_text name "s3:ObjectCreated:Put" then ok key else err value_error

abbrev pub or_old : Result Json → Json → Json
or_old (ok key) old = key
or_old (err e) old = old

-- The last key that the calls announce, or the old one.
abbrev pub last_key : List Call → Json → Json
last_key [] old = old
last_key (before inputs ∷ calls) old = last_key calls (or_old (announced inputs) old)
last_key (after response ∷ calls) old = last_key calls old

-- What the predictor is sent for an image.
abbrev pub instances : Pixels → List (List ℕ) → Json
instances pixels image = dict (
    ("instances", list (list (map pixels.ratio (flatten (pixels.resize (inverted image)))) ∷ []))
    ∷ [])

grey_values-ok :
    (pixels : Pixels) (read : Option (List (List ℕ))) (value : Json)
    → grey_values pixels read ≡ ok value
    → (image : List (List ℕ)) × (read ≡ some image)
      × (value ≡ list (map pixels.ratio (flatten (pixels.resize (inverted image)))))
grey_values-ok pixels none value h = cc
grey_values-ok pixels (some image) value h = (image, refl, cc h)

sent :
    (pixels : Pixels) (value request : Json) (image : List (List ℕ))
    → ok (dict (("instances", list (value ∷ [])) ∷ [])) ≡ ok request
    → value ≡ list (map pixels.ratio (flatten (pixels.resize (inverted image))))
    → request ≡ instances pixels image
sent pixels value request image h e = cc (sym (rw e at h))

announced-ok :
    (inputs name bucket key : Json)
    → index inputs "EventName" ≡ ok name
    → record_field inputs "bucket" "name" ≡ ok bucket
    → record_field inputs "object" "key" ≡ ok key
    → is_text name "s3:ObjectCreated:Put" ≡ true
    → announced inputs ≡ ok key
announced-ok inputs name bucket key hn hb hk put = rw (hn, hb, hk) (rw put refl)

module _ (backend : Backend) (pixels : Pixels) (repr : Json → String) where
  -- The object was downloaded to a path made from its key, an image could be read there, and the
  -- request is made from it.
  abbrev pub Fetched : Json → Json → Json → backend.State → Type 0
  Fetched bucket found request files =
      (key : String) × (image : List (List ℕ)) × (found ≡ str key)
      × ((backend.download_file bucket found ("/tmp/" <> key) files).0 ≡ ok tt)
      × (backend.imread ("/tmp/" <> key)
            (backend.download_file bucket found ("/tmp/" <> key) files).1
          ≡ some image)
      × (request ≡ instances pixels image)

  -- The transformer after a call, whether it returned or raised.
  abbrev pub perform : Call → Transformer backend pixels repr → Transformer backend pixels repr
  perform (before inputs) t = (preprocess backend pixels repr inputs t).1
  perform (after response) t = (postprocess backend pixels repr response t).1

  abbrev pub run : List Call → Transformer backend pixels repr → Transformer backend pixels repr
  run [] t = t
  run (call ∷ calls) t = run calls (perform call t)

  preprocess-key :
      (inputs : Json) (t : Transformer backend pixels repr)
      → (perform (before inputs) t).key ≡ or_old (announced inputs) t.key
  unfolding preprocess preprocess_put fetch
  preprocess-key inputs t = ground arith

  postprocess-key :
      (response : Json) (t : Transformer backend pixels repr)
      → (perform (after response) t).key ≡ t.key
  unfolding postprocess
  postprocess-key response t = ground arith

  -- After any calls, in any order and also if some of them raised, the transformer holds the last key
  -- that an event announced.
  pub run-key :
      (calls : List Call) (t : Transformer backend pixels repr)
      → (run calls t).key ≡ last_key calls t.key
  run-key [] t = refl
  run-key (before inputs ∷ calls) t =
      run-key calls (perform (before inputs) t) ∙ ap (last_key calls) (preprocess-key inputs t)
  run-key (after response ∷ calls) t =
      run-key calls (perform (after response) t) ∙ ap (last_key calls) (postprocess-key response t)

  -- After any calls, a response with a predicted class files the object of the last announced key,
  -- if that is a text, under this class, whichever request the response belongs to.
  pub postprocess-run :
      (calls : List Call) (t : Transformer backend pixels repr) (response digit : Json)
      (key : String)
      → predicted_class response ≡ ok digit
      → last_key calls t.key ≡ str key
      → (postprocess backend pixels repr response (run calls t)).1 ≡ (
          let files =
            (backend.upload_file
              ("/tmp/" <> key)
              ("digit-" <> format repr digit)
              (str key)
              (run calls t).files).1 in
          record (run calls t) { files = files })
  unfolding postprocess
  postprocess-run calls t response digit key hd hk =
      rw (hd, run-key calls t ∙ hk)
        (resume-pure
            (backend.upload_file ("/tmp/" <> key) ("digit-" <> format repr digit) (str key)
              (run calls t).files).0
            response _
          ∙ ap
              (λ k. record {
                key = k;
                files =
                    (backend.upload_file ("/tmp/" <> key) ("digit-" <> format repr digit) (str key)
                      (run calls t).files).1;
              })
              (run-key calls t ∙ hk))

  fetch-returns :
      (bucket found request : Json) (t : Transformer backend pixels repr)
      → (fetch backend pixels repr bucket found t).0 ≡ ok request
      → Fetched bucket found request t.files
  unfolding fetch
  fetch-returns bucket (str key) request t h =
      let (_, hd, h1) =
        resume-ok (backend.download_file bucket (str key) ("/tmp/" <> key) t.files).0 _ _ request
          h in
      let (value, hg, h2) =
        resume-ok
          (grey_values pixels (
            backend.imread ("/tmp/" <> key)
              (backend.download_file bucket (str key) ("/tmp/" <> key) t.files).1))
          _ _ request h1 in
      let (image, hi, e) = grey_values-ok pixels _ value hg in
      (key, image, refl, hd, hi, sent pixels value request image h2 e)
  fetch-returns bucket _ request t h = cc

  -- A call of `preprocess` that returned was for an uploaded object: it downloaded the object to a
  -- path made from its key, could read the image there, and returned the grey values of it as the
  -- only instance.
  pub preprocess-returns :
      (inputs request : Json) (t : Transformer backend pixels repr)
      → (preprocess backend pixels repr inputs t).0 ≡ ok request
      → (key : Json) × (bucket : Json) × (announced inputs ≡ ok key)
        × (record_field inputs "bucket" "name" ≡ ok bucket)
        × Fetched bucket key request t.files
  unfolding preprocess preprocess_put
  preprocess-returns inputs request t h =
      let (name, hn, h1) = resume-ok (index inputs "EventName") _ t request h in
      elim (Bool-cases (is_text name "s3:ObjectCreated:Put")) [
        | inr other ↦ cc (rw other at h1)
        | inl put ↦
            let (bucket, hb, h2) =
              resume-ok (record_field inputs "bucket" "name") _ t request (rw put at h1) in
            let (key, hk, h3) = resume-ok (record_field inputs "object" "key") _ t request h2 in
            (
              key,
              bucket,
              announced-ok inputs name bucket key hn hb hk put,
              hb,
              fetch-returns bucket key request t h3,
            )
      ]
