-- ===== src/KserveFluid.antt =====
-- examples/kserve-fluid/fluid/docker/models.py: the simpler server, on tensors. Tensors and texts in
-- the calls of transformers are values of JSON; what `init` logs is not modelled, but for that of
-- `check_gpu`.
pub mod Laws
use kubefrog_kvmserver.Prelude.{
  String, Bool, true, false, Option, none, some, List, [], ◌∷◌, ◌==◌, string_eq, if◌then◌else◌,
}
use kubefrog_kvmserver.Python.Errors.{Result, ok, ◌>>=◌ as ◌|>◌}
use kubefrog_kvmserver.Python.Exec.{Exec, pure, lift, ◌>>=◌, ◌>>◌}
use kubefrog_kvmserver.Python.Json.{Json, num, str, Fields, lookup, with_default, first_item, index}
use kubefrog_kvmserver.Python.Json.Literal.{dict}
use kubefrog_kvmserver.Controller.Settings.{Env, environ_get}
use kubefrog_kvmserver.KserveLlm.{Answer, prompt_not_found, answered, join}
use kubefrog_kvmserver.KserveLlm.Gpu.{Cuda, logged}

-- transformers and torch: what a call returns or raises, and the state afterwards.
pub record Device : Type 1 where
  pub State : Type 0
  pub Tokenizer : Type 0
  pub Model : Type 0
  pub cuda : State → Result Cuda × State
  pub load_tokenizer : String → State → Result Tokenizer × State
  pub load_model : String → Bool → State → Result Model × State
  pub tokenize : Option Tokenizer → Json → State → Result Json × State
  pub to_cuda : Json → State → Result Json × State
  pub generate : Option Model → Json → Json → State → Result Json × State
  pub batch_decode : Option Tokenizer → Json → State → Result Json × State

-- It logs what its namesake in the other server does, and returns nothing.
abbrev pub check_gpu : Cuda → List String
check_gpu cuda = logged cuda.is_available cuda

-- `os.environ.get(name, 'False') == 'True'`
abbrev pub flag : Env → String → Bool
flag env name = environ_get env name "False" == "True"

-- The constants that the module reads from the environment.
pub record Settings : Type 0 where
  pub model_url : String
  pub load_in_8bit : Bool
  pub gpu_enabled : Bool

abbrev pub settings_from : Env → Settings
settings_from env = record {
  model_url = environ_get env "MODEL_URL" "/mnt/models";
  load_in_8bit = flag env "LOAD_IN_8BIT";
  gpu_enabled = flag env "GPU_ENABLED";
}

module _ (device : Device) where
  pub record Server : Type 0 where
    pub model : Option device.Model
    pub tokenizer : Option device.Tokenizer
    pub device_state : device.State

  abbrev pub on_device : {A : Type 0} → (device.State → Result A × device.State) → Exec Server A
  on_device act server =
      let (r, state) = act server.device_state in (r, record server { device_state = state })

  abbrev pub set_tokenizer : device.Tokenizer → Exec Server (Unit {0})
  set_tokenizer tokenizer server = (ok tt, record server { tokenizer = some tokenizer })

  abbrev pub set_model : device.Model → Exec Server (Unit {0})
  set_model model server = (ok tt, record server { model = some model })

  -- The body of `init` for a server that lacks the tokenizer or the model.
  unfoldable pub load : Settings → Exec Server (Unit {0})
  load settings = do
    tokenizer ← on_device (device.load_tokenizer settings.model_url)
    set_tokenizer tokenizer
    model ← on_device (device.load_model settings.model_url settings.load_in_8bit)
    set_model model

  abbrev pub both_there : Option device.Model → Option device.Tokenizer → Bool
  both_there (some m) (some t) = true
  both_there (some m) none = false
  both_there none t = false

  abbrev pub load_missing : Settings → Exec Server (Unit {0})
  load_missing settings server =
      if both_there server.model server.tokenizer then (ok tt, server) else load settings server

  -- `check_gpu()`, which may raise before anything is loaded.
  unfoldable pub look_at_gpus : Exec Server (List String)
  look_at_gpus = do cuda ← on_device device.cuda; pure (check_gpu cuda)

  unfoldable pub init : Settings → Exec Server (Unit {0})
  init settings = do look_at_gpus; load_missing settings

  -- The tensors of a prompt, moved to the GPU if it is enabled.
  abbrev pub encode : Settings → Json → Exec Server Json
  encode settings prompt server =
      (do
        tensors ← on_device (device.tokenize server.tokenizer prompt)
        if settings.gpu_enabled then on_device (device.to_cuda tensors) else pure tensors)
        server

  abbrev pub generate : Json → Json → Exec Server Json
  generate ids limit server = on_device (device.generate server.model ids limit) server

  abbrev pub batch_decode : Json → Exec Server Json
  batch_decode tokens server = on_device (device.batch_decode server.tokenizer tokens) server

  -- `predict` for a request with a prompt.
  unfoldable pub ask : Settings → Fields → Json → Exec Server Answer
  ask settings input_data prompt = do
    input ← encode settings prompt
    ids ← lift (index input "input_ids")
    sequences ← generate ids (with_default (lookup "result_length" input_data) (num 50))
    first ← lift (first_item sequences)
    result ← batch_decode first
    joined ← lift (join result)
    pure (answered (dict (("result", str joined) ∷ [])))

  abbrev pub answer_prompt : Settings → Option Json → Fields → Exec Server Answer
  answer_prompt settings none input_data server = (ok prompt_not_found, server)
  answer_prompt settings (some prompt) input_data server = ask settings input_data prompt server

  unfoldable pub predict : Settings → Fields → Exec Server Answer
  predict settings input_data = answer_prompt settings (lookup "prompt" input_data) input_data
