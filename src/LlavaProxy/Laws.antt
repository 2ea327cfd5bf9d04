-- ===== src/LlavaProxy/Laws.antt =====
-- What the chat endpoint answers, and when it calls the model.
use kubefrog_kvmserver.Prelude.{
  String, ◌<>◌, ◌≡◌, sym, Bool, true, false, ◌==◌, nat_eq, Option-cases, refl, [], ◌∷◌, ◌∙◌, ap,
  ap₂, inl, inr, Option, none,
}
use kubefrog_kvmserver.Python.Errors.{Error, Result, ok, err, ◌>>=◌, >>=-eq-ok}
use kubefrog_kvmserver.Python.Exec.{Exec, resume, resume-returned}
use kubefrog_kvmserver.Python.Json.{Json, str, num, index, first_item}
use kubefrog_kvmserver.Python.Json.Literal.{list}
use kubefrog_kvmserver.Python.Dumps.{format}
use kubefrog_kvmserver.LlavaProxy.{
  Service, Answer, text_of_query, image_of_query, prompt_of, completion_request, first_choice,
  chat_completion, context, translate, answer_query, predict,
}

-- The first item of a field.
abbrev pub first_of_field : Json → String → Result Json
first_of_field v k = index v k >>= first_item

-- Both values have this field, with the same value.
abbrev pub Copied : String → Json → Json → Type 0
Copied k received body = (v : Json) × (index received k ≡ ok v) × (index body k ≡ ok v)

-- A body is the translation of what the model sent: five of its fields are those of the model's answer, and
-- its first choice is a message of the assistant, with the text and the finish reason of the first
-- choice of the model.
abbrev pub Translates : Json → Json → Type 0
Translates received body =
    (text : Json) × (reason : Json) × ((first_of_field received "choices" >>= λ c. index c "text")
      ≡ ok text)
    × ((first_of_field received "choices" >>= λ c. index c "finish_reason") ≡ ok reason)
    × ((first_of_field body "choices" >>= λ c. index c "message" >>= λ m. index m "content")
        ≡ ok text)
    × ((first_of_field body "choices" >>= λ c. index c "message" >>= λ m. index m "role")
        ≡ ok (str "assistant"))
    × ((first_of_field body "choices" >>= λ c. index c "finish_reason") ≡ ok reason)
    × Copied "id" received body
    × Copied "object" received body
    × Copied "created" received body
    × Copied "model" received body
    × Copied "usage" received body

-- What the model is sent: a prompt that ends with the text and the address of an image, and when to stop.
abbrev pub Asks : (Json → String) → Json → Json → Json → Type 0
Asks repr text image request =
    (index request "prompt"
      ≡ ok (
          str (
            context
            <> "### Human: "
            <> format repr text
            <> "  \n<img src=\""
            <> format repr image
            <> "\">### Assistant: ")))
    × (index request "max_tokens" ≡ ok (num 200))
    × (index request "stop" ≡ ok (list (str "\n###" ∷ [])))

Translates-chat_completion :
    (received body text reason id object created model usage : Json)
    → chat_completion id object created model text reason usage ≡ body
    → (first_of_field received "choices" >>= λ c. index c "text") ≡ ok text
    → (first_of_field received "choices" >>= λ c. index c "finish_reason") ≡ ok reason
    → index received "id" ≡ ok id
    → index received "object" ≡ ok object
    → index received "created" ≡ ok created
    → index received "model" ≡ ok model
    → index received "usage" ≡ ok usage
    → Translates received body
Translates-chat_completion received body text reason id object created model usage e ht hr hi ho hc
      hm hu =
    rw (← e) (
      text,
      reason,
      ht,
      hr,
      refl,
      refl,
      refl,
      (id, hi, refl),
      (object, ho, refl),
      (created, hc, refl),
      (model, hm, refl),
      (usage, hu, refl),
    )

translate-ok : (received body : Json) → translate received ≡ ok body → Translates received body
unfolding translate
translate-ok received body h =
    let (text, ht, h1) = >>=-eq-ok (first_choice received >>= λ c. index c "text") _ h in
    let (id, hi, h2) = >>=-eq-ok (index received "id") _ h1 in
    let (object, ho, h3) = >>=-eq-ok (index received "object") _ h2 in
    let (created, hc, h4) = >>=-eq-ok (index received "created") _ h3 in
    let (model, hm, h5) = >>=-eq-ok (index received "model") _ h4 in
    let (usage, hu, h6) = >>=-eq-ok (index received "usage") _ h5 in
    let (reason, hr, h7) =
      >>=-eq-ok (first_choice received >>= λ c. index c "finish_reason") _ h6 in
    Translates-chat_completion received body text reason id object created model usage (cc h7) ht hr
      hi ho hc hm hu

-- Two values that are needed, and one of them raises.
resume-err {ℓ} :
    {S A B C : Type ℓ} (a : Result A) (b : Result B) (f : A → B → Exec S C) (s : S) (e : Error)
    → (a >>= λ x. b) ≡ err e
    → resume a (λ x. resume b (f x)) s ≡ (err e, s)
resume-err (ok x) (ok y) f s e h = cc
resume-err (ok x) (err e') f s e h = cc h
resume-err (err e') b f s e h = cc h

abbrev is_refusal : Result Answer → Bool
is_refusal (ok answer) = answer.status == 400
is_refusal (err e) = false

clash : true ≡ false → ⊥
clash e = cc

module _ (service : Service) (repr : Json → String) (validate : Json → Option String) where
  -- A query that was not refused, but of which the text or the address raises.
  pub predict-raises :
      (url : String) (query : Json) (state : service.State) (e : Error)
      → validate query ≡ none
      → (text_of_query query >>= λ text. image_of_query query) ≡ err e
      → predict service repr validate url query state ≡ (err e, state)
  unfolding predict answer_query
  predict-raises url query state e hv h =
      rw hv (resume-err (text_of_query query) (image_of_query query) _ state e h)

  answer_query-returns :
      (url : String) (query : Json) (state after : service.State) (answer : Answer)
      → answer_query service repr validate url query state ≡ (ok answer, after)
      → (text : Json) × (image : Json) × (received : Json) × (body : Json) × (text_of_query query
          ≡ ok text)
        × (image_of_query query ≡ ok image)
        × (service.post
              (url <> "/api/v1/completions")
              (completion_request (prompt_of repr text image))
              state
            ≡ (ok (ok received), after))
        × (translate received ≡ ok body)
        × (answer ≡ record { body = body; status = 200 })
  unfolding answer_query
  answer_query-returns url query state after answer h =
      let (text, ht, h1) = resume-returned (text_of_query query) _ state after answer h in
      let (image, hi, h2) = resume-returned (image_of_query query) _ state after answer h1 in
      let posted =
        service.post (url <> "/api/v1/completions") (completion_request (prompt_of repr text image))
          state in
      let (response, hr, h3) = resume-returned posted.0 _ posted.1 after answer h2 in
      let (received, hj, h4) = resume-returned response _ posted.1 after answer h3 in
      let (body, hb, h5) = resume-returned (translate received) _ posted.1 after answer h4 in
      (
        text,
        image,
        received,
        body,
        ht,
        hi,
        ap₂ (λ r s. (r, s)) (hr ∙ ap ok hj) (ap (λ p. p.1) h5),
        hb,
        cc h5,
      )

  -- An answer with status 200 comes from a query that was not refused and from just one call of the model,
  -- posted to the path of its completions: the request has the context and the text and the image
  -- address of the query's first part as its prompt, and the answer's body has the fields of what the
  -- model sent, with the text and the finish reason of its first choice in an assistant's message.
  pub predict-answers :
      (url : String) (query body : Json) (state after : service.State)
      → predict service repr validate url query state
        ≡ (ok (record { body = body; status = 200 }), after)
      → (text : Json) × (image : Json) × (request : Json) × (received : Json) × (validate query
          ≡ none)
        × (text_of_query query ≡ ok text)
        × (image_of_query query ≡ ok image)
        × Asks repr text image request
        × (service.post (url <> "/api/v1/completions") request state ≡ (ok (ok received), after))
        × Translates received body
  unfolding predict
  predict-answers url query body state after h = elim (Option-cases (validate query)) [
    | inr (message, hv) ↦ absurd (clash (ap (λ p. is_refusal p.0) (rw hv at h)))
    | inl hv ↦
        let (text, image, received, sent, ht, hi, hr, hb, e) =
          answer_query-returns url query state after _ (rw hv at h) in
        let same : body ≡ sent = ap (λ a. a.body) e in
        (
          text,
          image,
          completion_request (prompt_of repr text image),
          received,
          hv,
          ht,
          hi,
          (refl, refl, refl),
          hr,
          translate-ok received body (hb ∙ ap ok (sym same)),
        )
  ]
