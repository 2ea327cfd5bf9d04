-- ===== src/KserveLlm.antt =====
-- examples/kserve-llm/docker/models.py: a Flask server for a causal language model of transformers.
-- The loading of tokenizer and model, the files and the text generation are arguments. What `init`
-- and `predict` log is not modelled; what `check_gpu` logs is, in KserveLlm/Gpu. `init` only stores its
-- answer in a variable that nothing reads; the call may raise before anything is loaded.
pub mod Gpu
pub mod Laws
use kubefrog_kvmserver.Prelude.{
  ℕ, String, ◌<>◌, Bool, true, false, ◌||◌, Option, none, some, List, [], ◌∷◌, ◌++◌, ◌==◌, nat_eq,
  string_eq, if◌then◌else◌, ltb, leb, any, all, ◌&&◌,
}
use kubefrog_kvmserver.Python.Errors.{
  Result, ok, err, missing_field, index_error, type_error, attribute_error, ◌>>=◌ as ◌|>◌,
}
use kubefrog_kvmserver.Python.Exec.{Exec, pure, lift, ◌>>=◌, ◌>>◌}
use kubefrog_kvmserver.Python.Json.{
  Json, null, bool, num, negative, float, str, arr, obj, Items, nil, cons, Fields, end, field,
  lookup, with_default, first_item, index,
}
use kubefrog_kvmserver.Python.Json.Literal.{dict}
use kubefrog_kvmserver.Python.Numeral.{codes}
use kubefrog_kvmserver.Python.Dumps.{format}
use kubefrog_kvmserver.Python.Format.{format_text}
use kubefrog_kvmserver.Controller.Settings.{Env, environ_get}
use kubefrog_kvmserver.KserveLlm.Gpu.{Cuda, check_gpu}

-- The files and transformers: what a call returns or raises, and the state afterwards.
pub record Host : Type 1 where
  pub State : Type 0
  pub Tokenizer : Type 0
  pub Model : Type 0
  -- What torch says of the GPUs.
  pub cuda : State → Result Cuda × State
  pub exists : String → State → Bool
  pub read_file : String → State → Result String × State
  pub load_tokenizer : String → State → Result Tokenizer × State
  pub load_model : String → State → Result Model × State
  -- The pipeline with a token limit, on a text.
  pub generate : Option Model → Option Tokenizer → Json → List ℕ → State → Result Json × State

-- What the comparison `r < 512` says of a float, and what a field with an attribute, an index, a
-- conversion or a specification stands for.
pub record Runtime : Type 0 where
  pub float_below : String → ℕ → Bool
  pub repr : Json → String
  pub complex_field : List ℕ → String → Json → Result (List ℕ)

-- `MODEL_URL`
abbrev pub model_url : Env → String
model_url env = environ_get env "MODEL_URL" "/mnt/models"

abbrev pub ends_in_slash : List ℕ → Bool
ends_in_slash [] = false
ends_in_slash (c ∷ []) = c == b'/'
ends_in_slash (c ∷ d ∷ rest) = ends_in_slash (d ∷ rest)

-- `os.path.join(path, name)` for a name that does not start with a slash.
abbrev pub path_join : String → String → String
path_join path name =
    if path == "" || ends_in_slash (codes path) then path <> name else path <> "/" <> name

abbrev pub default_template : String
default_template = "[INST] <<SYS>> {system_message} <</SYS>> {prompt} [/INST]"

abbrev pub default_system_message : String
default_system_message =
    "You are a helpful, respectful and honest assistant. Always answer as "
    <> "helpfully as possible, while being safe.  Your answers should not include any "
    <> "harmful, unethical, racist, sexist, toxic, dangerous, or illegal content. "
    <> "Please ensure that your responses are socially unbiased and positive in "
    <> "nature. If a question does not make any sense, or is not factually coherent, "
    <> "explain why instead of answering something not correct. If you don't know the "
    <> "answer to a question, please don't share false information."

-- The template and the system message: from the request, the model's directory, or the default.
abbrev pub first_template : Option Json → Option String → Json × String
first_template (some template) own = (template, "")
first_template none (some template) = (str template, "")
first_template none none = (str default_template, default_system_message)

abbrev pub choose_template : Fields → Option String → Json × String
choose_template input_data own = first_template (lookup "prompt_template" input_data) own

-- A field with one of `.`, `[`, `:` and `!`.
abbrev pub is_complex : List ℕ → Bool
is_complex name = any (λ c. c == b'.' || c == b'[' || c == b':' || c == b'!') name

-- A field's name is empty or a number: it asks for an argument by position.
abbrev pub is_position : List ℕ → Bool
is_position name = all (λ c. leb b'0' c && leb c b'9') name

abbrev pub same_codes : List ℕ → List ℕ → Bool
same_codes [] [] = true
same_codes [] (d ∷ l) = false
same_codes (c ∷ k) [] = false
same_codes (c ∷ k) (d ∷ l) = let rest = same_codes k l in if c == d then rest else false

-- What a replacement field stands for in `format(system_message=…, prompt=…)`.
abbrev pub field_value : Runtime → String → Json → List ℕ → Result (List ℕ)
field_value runtime system_message prompt name =
    if is_complex name
    then runtime.complex_field name system_message prompt
    else if same_codes name (codes "system_message")
    then ok (codes system_message)
    else if same_codes name (codes "prompt")
    then ok (codes (format runtime.repr prompt))
    else if is_position name
    then err index_error
    else err (missing_field name)

-- `prompt_template.format(system_message=system_message, prompt=prompt)`
abbrev pub format_template : Runtime → Json → String → Json → Result (List ℕ)
format_template runtime (str template) system_message prompt =
    format_text (field_value runtime system_message prompt) (codes template)
format_template runtime _ system_message prompt = err attribute_error

-- `min(512, result_length)`: the second, if it is below the first.
abbrev pub token_limit : Runtime → Json → Result Json
token_limit runtime (num n) = ok (if ltb n 512 then num n else num 512)
token_limit runtime (negative n) = ok (negative n)
token_limit runtime (bool b) = ok (bool b)
token_limit runtime (float r) = ok (if runtime.float_below r 512 then float r else num 512)
token_limit runtime _ = err type_error

abbrev pub join_items : Items → Result String
join_items nil = ok ""
join_items (cons (str s) rest) = join_items rest |> λ t. ok (s <> t)
join_items (cons _ rest) = err type_error

abbrev pub join_keys : Fields → String
join_keys end = ""
join_keys (field k v rest) = k <> join_keys rest

-- `"".join(result)`
abbrev pub join : Json → Result String
join (str s) = ok s
join (arr items) = join_items items
join (obj fs) = ok (join_keys fs)
join _ = err type_error

pub data Answer : Type 0 where
  prompt_not_found : Answer
  answered : Json → Answer

module _ (host : Host) (runtime : Runtime) where
  -- The three globals, and the host.
  pub record Server : Type 0 where
    pub model : Option host.Model
    pub tokenizer : Option host.Tokenizer
    pub model_prompt_template : Option String
    pub host_state : host.State

  abbrev pub on_host : {A : Type 0} → (host.State → Result A × host.State) → Exec Server A
  on_host act server =
      let (r, state) = act server.host_state in (r, record server { host_state = state })

  -- `get_prompt_template(model_path)`
  abbrev pub get_prompt_template : String → Exec Server (Option String)
  get_prompt_template path server =
      if host.exists (path_join path "prompt_template.txt") server.host_state
      then (do
        template ← on_host (host.read_file (path_join path "prompt_template.txt"))
        pure (some template))
          server
      else (ok none, server)

  abbrev pub set_template : Option String → Exec Server (Unit {0})
  set_template template server = (ok tt, record server { model_prompt_template = template })

  abbrev pub set_tokenizer : host.Tokenizer → Exec Server (Unit {0})
  set_tokenizer tokenizer server = (ok tt, record server { tokenizer = some tokenizer })

  abbrev pub set_model : host.Model → Exec Server (Unit {0})
  set_model model server = (ok tt, record server { model = some model })

  -- The body of `init` for a server that lacks the tokenizer or the model.
  unfoldable pub load : String → Exec Server (Unit {0})
  load url = do
    template ← get_prompt_template url
    set_template template
    tokenizer ← on_host (host.load_tokenizer url)
    set_tokenizer tokenizer
    model ← on_host (host.load_model url)
    set_model model

  abbrev pub is_loaded : Server → Bool
  is_loaded server = elim server.model [
    | none ↦ false
    | some m ↦ elim server.tokenizer [ none ↦ false | some t ↦ true ]
  ]

  -- `check_gpu()`
  unfoldable pub gpu_type : Exec Server String
  gpu_type = do cuda ← on_host host.cuda; pure (check_gpu cuda).1

  abbrev pub load_missing : String → Exec Server (Unit {0})
  load_missing url server = if is_loaded server then (ok tt, server) else load url server

  unfoldable pub init : String → Exec Server (Unit {0})
  init url = do gpu_type; load_missing url

  abbrev pub generate : Json → List ℕ → Exec Server Json
  generate limit prompt server =
      on_host (host.generate server.model server.tokenizer limit prompt) server

  -- `predict` with the chosen template, on a prompt.
  unfoldable pub ask : Fields → Json → Json × String → Exec Server Answer
  ask input_data prompt (template, system_message) = do
    text ← lift (format_template runtime template system_message prompt)
    limit ← lift (token_limit runtime (with_default (lookup "result_length" input_data) (num 100)))
    results ← generate limit text
    result ← lift (first_item results |> λ r. index r "generated_text")
    joined ← lift (join result)
    pure (answered (dict (("result", str joined) ∷ [])))

  abbrev pub answer_prompt : Option Json → Fields → Exec Server Answer
  answer_prompt none input_data server = (ok prompt_not_found, server)
  answer_prompt (some prompt) input_data server =
      ask input_data prompt (choose_template input_data server.model_prompt_template) server

  -- `predict`, on the dict of the request.
  unfoldable pub predict : Fields → Exec Server Answer
  predict input_data = answer_prompt (lookup "prompt" input_data) input_data
