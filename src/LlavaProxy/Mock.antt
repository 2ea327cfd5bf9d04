-- ===== src/LlavaProxy/Mock.antt =====
-- examples/api_proxy_llava/docker/mock_api.py: the model that the tests of the proxy run against.
use kubefrog_kvmserver.Prelude.{
  String, ◌≡◌, refl, Bool, true, false, ◌&&◌, Option, none, some, List, [], ◌∷◌, ◌++◌,
  if◌then◌else◌, ◌<>◌, ◌==◌, string_eq, eq_iff,
}
use kubefrog_kvmserver.Python.Errors.{ok, err, value_error}
use kubefrog_kvmserver.Python.Json.{Json, null, str, num, obj, Fields, lookup}
use kubefrog_kvmserver.Python.Json.Literal.{dict, list}
use kubefrog_kvmserver.Python.Dumps.{format}
use kubefrog_kvmserver.LlavaProxy.{
  Service, Answer, text_of_query, image_of_query, context, translate, answer_query, predict,
}

-- `key in data`
abbrev pub has_key : Fields → String → Bool
has_key fs key = elim (lookup key fs) [ none ↦ false | some v ↦ true ]

abbrev pub mock_usage : Json
mock_usage = dict (("prompt_tokens", num 8) ∷ ("total_tokens", num 8) ∷ [])

abbrev pub mock_completion : Json
mock_completion = dict (
    ("id", str "mock-id")
    ∷ ("object", str "text_completion")
    ∷ ("created", num 1643723904)
    ∷ ("model", str "mock-model")
    ∷ ("usage", mock_usage)
    ∷ (
      "choices",
      list (
          dict (
            ("text", str "toto")
            ∷ ("index", num 0)
            ∷ ("logprobs", null)
            ∷ ("finish_reason", str "stop")
            ∷ [])
          ∷ []),
    )
    ∷ [])

-- `completions`, on the dict of the request: an empty one has no key either.
abbrev pub completions : Fields → Answer
completions fs =
    if has_key fs "prompt" && has_key fs "max_tokens" && has_key fs "stop"
    then record { body = mock_completion; status = 200 }
    else record { body = dict (("error", str "Missing required parameters") ∷ []); status = 400 }

abbrev pub fields_of : Json → Fields
fields_of (obj fs) = fs
fields_of _ = Fields.end

-- The mock at an address, behind an HTTP client; its state is the requests that it has printed. It answers
-- at one path only: at any other Flask has a page for status 404, and this is no JSON.
abbrev pub mock_service : String → Service
mock_service address = record {
  State = List Json;
  post = λ url body printed.
      if url == address <> "/api/v1/completions"
      then (ok (ok (completions (fields_of body)).body), printed ++ body ∷ [])
      else (ok (err value_error), printed);
}

-- What a client of the proxy gets of the mock's answer.
abbrev pub relayed : Json
relayed = dict (
    ("id", str "mock-id")
    ∷ ("object", str "text_completion")
    ∷ ("created", num 1643723904)
    ∷ ("model", str "mock-model")
    ∷ ("system_fingerprint", str "fp_44709d6fcb")
    ∷ (
      "choices",
      list (
          dict (
            ("index", num 0)
            ∷ ("message", dict (("role", str "assistant") ∷ ("content", str "toto") ∷ []))
            ∷ ("finish_reason", str "stop")
            ∷ [])
          ∷ []),
    )
    ∷ ("usage", dict (("prompt_tokens", num 8) ∷ ("total_tokens", num 8) ∷ []))
    ∷ [])

-- What the mock prints for a text and the address of an image.
abbrev pub asked : (Json → String) → Json → Json → Json
asked repr text image = dict (
    (
      "prompt",
      str (
          context
          <> "### Human: "
          <> format repr text
          <> "  \n<img src=\""
          <> format repr image
          <> "\">### Assistant: "),
    )
    ∷ ("max_tokens", num 200)
    ∷ ("stop", list (str "\n###" ∷ []))
    ∷ [])

-- In front of the mock, started at its address, the proxy answers every query that it accepts and that
-- has a text and an image address with the mock's completion, translated, and the mock prints one
-- request, with the context, the text and the image address as its prompt.
pub predict-mock :
    (repr : Json → String) (validate : Json → Option String) (address : String)
    (query text image : Json) (printed : List Json)
    → validate query ≡ none
    → text_of_query query ≡ ok text
    → image_of_query query ≡ ok image
    → predict (mock_service address) repr validate address query printed
      ≡ (ok (record { body = relayed; status = 200 }), printed ++ asked repr text image ∷ [])
unfolding predict answer_query translate
predict-mock repr validate address query text image printed hv ht hi =
    let here =
      (eq_iff (address <> "/api/v1/completions") (address <> "/api/v1/completions")).1 refl in
    rw (hv, ht, hi, here) refl
