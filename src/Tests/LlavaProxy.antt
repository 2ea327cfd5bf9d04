-- ===== src/Tests/LlavaProxy.antt =====
-- Chats with a model that repeats one answer.
use kubefrog_kvmserver.Prelude.{if◌then◌else◌, ◌⊎◌, inl, inr, Bool-cases, true}
use kubefrog_kvmserver.Python.Errors.{index_error}
use kubefrog_kvmserver.Python.Json.{Fields, field, end}
use kubefrog_kvmserver.LlavaProxy.Query
use kubefrog_kvmserver.LlavaProxy.Query.{Class, instance_of, fits}
use kubefrog_kvmserver.LlavaProxy.Accepted.{opening, predict-accepted, predict-incomplete}
use kubefrog_kvmserver.LlavaProxy.Mock.{mock_service, relayed, asked, predict-mock}
use kubefrog_kvmserver.LlavaProxy.{embeddings}
use kubefrog_kvmserver.Python.Errors.{◌>>=◌}
use kubefrog_kvmserver.Python.Json.{first_item, index, len}
use kubefrog_kvmserver.Prelude.{◌++◌}
use kubefrog_kvmserver.Prelude.{ℕ, suc, String, ◌<>◌, ◌≡◌, refl, Option, none, some, List, [], ◌∷◌}
use kubefrog_kvmserver.Python.Errors.{ok, err, key_error}
use kubefrog_kvmserver.Python.Json.{Json, str, num, obj}
use kubefrog_kvmserver.Python.Json.Literal.{dict, list}
use kubefrog_kvmserver.LlavaProxy.{
  Service, text_of_query, image_of_query, chat_completion, translate, answer_query, predict,
}
use kubefrog_kvmserver.LlavaProxy.Laws.{Asks, Translates, predict-answers}

abbrev completion : Json
completion = dict (
    ("id", str "conv-1")
    ∷ ("object", str "text_completion")
    ∷ ("created", num 7)
    ∷ ("model", str "llava")
    ∷ ("choices", list (dict (("text", str "A cat.") ∷ ("finish_reason", str "stop") ∷ []) ∷ []))
    ∷ ("usage", dict [])
    ∷ [])

-- It counts its calls.
abbrev model : Service
model = record { State = ℕ; post = λ url body calls. (ok (ok completion), suc calls) }

abbrev repr : Json → String
repr v = "[]"

-- Only a dict is accepted.
abbrev validate : Json → Option String
validate (obj fs) = none
validate _ = some "not a query"

abbrev chat : List Json → Json
chat parts =
    dict (("messages", list (dict (("role", str "user") ∷ ("content", list parts) ∷ []) ∷ [])) ∷ [])

abbrev text_part : Json
text_part = dict (("type", str "text") ∷ ("text", str "What is this?") ∷ [])

abbrev image_part : Json
image_part =
    dict (("type", str "image_url") ∷ ("image_url", dict (("url", str "cat.jpg") ∷ [])) ∷ [])

abbrev both : Json
both = dict (("text", str "What is this?") ∷ ("image_url", dict (("url", str "cat.jpg") ∷ [])) ∷ [])

abbrev answered : Json
answered =
    chat_completion (str "conv-1") (str "text_completion") (num 7) (str "llava") (str "A cat.")
      (str "stop") (dict [])

both-predict :
    predict model repr validate "http://model" (chat (both ∷ [])) 0
    ≡ (ok (record { body = answered; status = 200 }), 1)
unfolding predict answer_query translate
both-predict = refl

predict-answers_example :
    (text : Json) × (image : Json) × (request : Json) × (received : Json) × (validate
        (chat (both ∷ []))
      ≡ none)
    × (text_of_query (chat (both ∷ [])) ≡ ok text)
    × (image_of_query (chat (both ∷ [])) ≡ ok image)
    × Asks repr text image request
    × (model.post ("http://model" <> "/api/v1/completions") request 0 ≡ (ok (ok received), 1))
    × Translates received answered
predict-answers_example =
    predict-answers model repr validate "http://model" (chat (both ∷ [])) answered 0 1 both-predict

predict-mock_example :
    predict (mock_service "http://mock") repr validate "http://mock" (chat (both ∷ [])) [] ≡ (
      ok (record { body = relayed; status = 200 }),
      [] ++ asked repr (str "What is this?") (str "cat.jpg") ∷ [],
    )
predict-mock_example =
    predict-mock repr validate "http://mock" (chat (both ∷ [])) (str "What is this?")
      (str "cat.jpg") [] refl refl refl

-- `[value]*512`
embeddings_size :
    (index embeddings "data" >>= first_item >>= (λ e. index e "embedding") >>= len) ≡ ok 512
unfolding embeddings
embeddings_size = refl

-- Accepts what fits, and nothing else.
abbrev model_validate : Class → Json → Option String
model_validate c v = if fits (instance_of c) v then none else some "invalid"

model_validate-fits :
    (c : Class) (v : Json) → model_validate c v ≡ none → fits (instance_of c) v ≡ true
model_validate-fits c v h = elim (Bool-cases (fits (instance_of c) v)) [
  | inl e ↦ e
  | inr e ↦ cc (rw e at h)
]

abbrev no_messages : Json
no_messages = dict (("model", str "llava") ∷ ("messages", list []) ∷ [])

no_messages-accepted : model_validate Query.query no_messages ≡ none
unfolding fits
no_messages-accepted = refl

predict-accepted_example :
    ((opening no_messages ≡ [])
      × (predict model repr (model_validate Query.query) "http://model" no_messages 0
          ≡ (err index_error, 0)))
    ⊎ ((part : Fields) × (rest : List Json) × (opening no_messages ≡ obj part ∷ rest)
        × (text_of_query no_messages ≡ index (obj part) "text")
        × (image_of_query no_messages ≡ (index (obj part) "image_url" >>= λ i. index i "url")))
predict-accepted_example =
    predict-accepted model repr model_validate "http://model" no_messages 0 model_validate-fits
      no_messages-accepted

-- The text and the image in parts of their own, as in the API of OpenAI.
abbrev in_parts : Json
in_parts = dict (
    ("model", str "llava")
    ∷ (
      "messages",
      list
          (dict (("role", str "user") ∷ ("content", list (text_part ∷ image_part ∷ [])) ∷ []) ∷ []),
    )
    ∷ [])

in_parts-accepted : model_validate Query.query in_parts ≡ none
unfolding fits
in_parts-accepted = refl

predict-incomplete_example :
    predict model repr (model_validate Query.query) "http://model" in_parts 0
    ≡ (err (key_error "image_url"), 0)
predict-incomplete_example =
    predict-incomplete model repr model_validate "http://model" in_parts
      (field "type" (str "text") (field "text" (str "What is this?") end)) (image_part ∷ [])
      "image_url" 0 model_validate-fits in_parts-accepted refl refl
