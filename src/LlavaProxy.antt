-- ===== src/LlavaProxy.antt =====
-- examples/api_proxy_llava/docker/apps.py: the chat endpoint of OpenAI in front of a LLaVA model. The
-- validation by pydantic and the HTTP client are arguments.
pub mod Laws
pub mod Mock
pub mod Query
pub mod Accepted
use kubefrog_kvmserver.Prelude.{ℕ, zero, suc, String, ◌<>◌, Option, none, some, List, [], ◌∷◌}
use kubefrog_kvmserver.Python.Errors.{Result, ok, ◌>>=◌ as ◌|>◌}
use kubefrog_kvmserver.Python.Exec.{Exec, pure, lift, ◌>>=◌}
use kubefrog_kvmserver.Python.Json.{Json, float, str, num, float, index, first_item}
use kubefrog_kvmserver.Python.Json.Literal.{dict, list}
use kubefrog_kvmserver.Python.Dumps.{format}

-- `requests.post(url, json=body)`: it raises, or gives a response whose `.json()` raises or returns.
pub record Service : Type 1 where
  pub State : Type 0
  pub post : String → Json → State → Result (Result Json) × State

-- What Flask sends for a returned dict, with its status.
pub record Answer : Type 0 where
  pub body : Json
  pub status : ℕ

-- `[value] * n`
abbrev pub repeated : ℕ → Json → List Json
repeated zero value = []
repeated (suc n) value = value ∷ repeated n value

-- What `embeddings` answers to every request.
unfoldable pub embeddings : Json
embeddings = dict (
    ("object", str "list")
    ∷ (
      "data",
      list (
          dict (
            ("object", str "embedding")
            ∷ ("embedding", list (repeated 512 (float "-0.0028842222")))
            ∷ ("index", num 0)
            ∷ [])
          ∷ []),
    )
    ∷ ("model", str "text-embedding-ada-002")
    ∷ ("usage", dict (("prompt_tokens", num 8) ∷ ("total_tokens", num 8) ∷ []))
    ∷ [])

abbrev pub context : String
context =
    "You are LLaVA, a large language and vision assistant trained by UW Madison WAIV "
    <> "Lab. You are able to understand the visual content that the user provides, and "
    <> "assist the user with a variety of tasks using natural language. Follow the "
    <> "instructions carefully and explain your answers in detail.### Human: Hi!### "
    <> "Assistant: Hi there! How can I help you today?\n"

-- `query['messages'][0]['content'][0]`
abbrev pub first_part : Json → Result Json
first_part query = index query "messages" |> first_item |> (λ m. index m "content") |> first_item

abbrev pub text_of_query : Json → Result Json
text_of_query query = first_part query |> (λ p. index p "text")

abbrev pub image_of_query : Json → Result Json
image_of_query query = first_part query |> (λ p. index p "image_url") |> (λ i. index i "url")

abbrev pub prompt_of : (Json → String) → Json → Json → String
prompt_of repr prompt image =
    context
    <> "### Human: "
    <> format repr prompt
    <> "  \n<img src=\""
    <> format repr image
    <> "\">### Assistant: "

-- What the model is sent.
abbrev pub completion_request : String → Json
completion_request prompt =
    dict (("prompt", str prompt) ∷ ("max_tokens", num 200) ∷ ("stop", list (str "\n###" ∷ [])) ∷ [])

-- `response.json()['choices'][0]`
abbrev pub first_choice : Json → Result Json
first_choice received = index received "choices" |> first_item

-- The dict that `predict` returns, from the parts of the model's answer.
abbrev pub chat_completion : Json → Json → Json → Json → Json → Json → Json → Json
chat_completion id object created model text finish_reason usage = dict (
    ("id", id)
    ∷ ("object", object)
    ∷ ("created", created)
    ∷ ("model", model)
    ∷ ("system_fingerprint", str "fp_44709d6fcb")
    ∷ (
      "choices",
      list (
          dict (
            ("index", num 0)
            ∷ ("message", dict (("role", str "assistant") ∷ ("content", text) ∷ []))
            ∷ ("finish_reason", finish_reason)
            ∷ [])
          ∷ []),
    )
    ∷ ("usage", usage)
    ∷ [])

-- From the text of the first choice to the returned dict.
unfoldable pub translate : Json → Result Json
translate received = first_choice received |> (λ c. index c "text") |> λ text.
    index received "id" |> λ id. index received "object" |> λ object.
    index received "created" |> λ created. index received "model" |> λ model.
    index received "usage" |> λ usage.
    first_choice received |> (λ c. index c "finish_reason") |> λ finish_reason.
    ok (chat_completion id object created model text finish_reason usage)

module _ (service : Service) (repr : Json → String) (validate : Json → Option String) where
  abbrev pub post : String → Json → Exec service.State (Result Json)
  post address body = service.post address body

  -- `predict` past the validation.
  unfoldable pub answer_query : String → Json → Exec service.State Answer
  answer_query url query = do
    prompt ← lift (text_of_query query)
    image ← lift (image_of_query query)
    response ←
        post (url <> "/api/v1/completions") (completion_request (prompt_of repr prompt image))
    received ← lift response
    translated ← lift (translate received)
    pure (record { body = translated; status = 200 })

  -- The `except` branch with the error's message, or the rest.
  abbrev pub answer_validated : Option String → String → Json → Exec service.State Answer
  answer_validated (some message) url query =
      pure (record { body = dict (("error", str message) ∷ []); status = 400 })
  answer_validated none url query = answer_query url query

  -- `predict`; `validate` is the message of `Query.model_validate`'s error, if it raises one.
  unfoldable pub predict : String → Json → Exec service.State Answer
  predict url query = answer_validated (validate query) url query
