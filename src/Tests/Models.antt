-- ===== src/Tests/Models.antt =====
-- The language model servers, with a model that repeats what it is asked.
use kubefrog_kvmserver.Prelude.{
  ℕ, suc, String, ◌≡◌, refl, true, false, none, some, [], ◌∷◌, ltb, ◌==◌, nat_eq, string_eq,
  if◌then◌else◌,
}
use kubefrog_kvmserver.Python.Errors.{ok, err, value_error, client_error}
use kubefrog_kvmserver.Python.Json.{Json, str, num, Fields, end, field}
use kubefrog_kvmserver.Python.Json.Literal.{dict, list}
use kubefrog_kvmserver.KserveLlm.{Host, Runtime, Server, Answer, answered, gpu_type, load, init}
use kubefrog_kvmserver.KserveLlm.Gpu.{Cuda, check_gpu}
use kubefrog_kvmserver.Python.Dumps.{decimal, decimal_within}
use kubefrog_kvmserver.KserveFluid
use kubefrog_kvmserver.KserveFluid.{Device}

abbrev one_gpu : Cuda
one_gpu = record {
  is_available = true;
  device_count = 1;
  get_device_name = λ i. "A100";
  memory_allocated = λ i. 0;
  memory_reserved = λ i. 2147483648;
  gigabytes = λ n. if n == 0 then "0.0" else "2.0";
}

-- It counts what was loaded; the model is never there at the first attempt.
abbrev host : Host
host = record {
  State = ℕ;
  Tokenizer = String;
  Model = String;
  cuda = λ n. (ok one_gpu, n);
  exists = λ path n. path == "/mnt/models/prompt_template.txt";
  read_file = λ path n. (ok "<{prompt}>", n);
  load_tokenizer = λ path n. (ok path, suc n);
  load_model = λ path n. if ltb n 2 then (err client_error, suc n) else (ok path, suc n);
  generate = λ model tokenizer limit prompt n.
      (ok (list (dict (("generated_text", str "An answer.") ∷ []) ∷ [])), n);
}

abbrev runtime : Runtime
runtime = record {
  float_below = λ r n. true;
  repr = λ v. "[]";
  complex_field = λ name system_message prompt. err value_error;
}

abbrev cold : Server host runtime
cold = record { model = none; tokenizer = none; model_prompt_template = none; host_state = 0 }

abbrev half : Server host runtime
half = record {
  model = none;
  tokenizer = some "/mnt/models";
  model_prompt_template = some "<{prompt}>";
  host_state = 2;
}

abbrev warm : Server host runtime
warm = record half { model = some "/mnt/models"; host_state = 4 }

first_attempt : init host runtime "/mnt/models" cold ≡ (err client_error, half)
unfolding init gpu_type load
first_attempt = refl

second_attempt : init host runtime "/mnt/models" half ≡ (ok tt, warm)
unfolding init gpu_type load
second_attempt = refl

abbrev question : Fields
question = field "prompt" (str "Why {so}?") (field "result_length" (num 600) end)

abbrev answer : Answer
answer = answered (dict (("result", str "An answer.") ∷ []))

abbrev device : Device
device = record {
  State = ℕ;
  Tokenizer = String;
  Model = String;
  cuda = λ n. (ok one_gpu, n);
  load_tokenizer = λ path n. (ok path, suc n);
  load_model = λ path in_8bit n. (ok path, suc n);
  tokenize = λ tokenizer prompt n. (ok (dict (("input_ids", list (num 1 ∷ [])) ∷ [])), n);
  to_cuda = λ tensors n. (ok tensors, n);
  generate = λ model ids limit n. (ok (list (ids ∷ [])), suc n);
  batch_decode = λ tokenizer tokens n. (ok (list (str "yes" ∷ [])), n);
}

abbrev settings : KserveFluid.Settings
settings = record { model_url = "/mnt/models"; load_in_8bit = false; gpu_enabled = true }

abbrev started : KserveFluid.Server device
started = record { model = none; tokenizer = none; device_state = 0 }

abbrev loaded : KserveFluid.Server device
loaded = record { model = some "/mnt/models"; tokenizer = some "/mnt/models"; device_state = 2 }

started-init : KserveFluid.init device settings started ≡ (ok tt, loaded)
unfolding KserveFluid.init KserveFluid.look_at_gpus KserveFluid.load
started-init = refl

one_gpu-check_gpu : check_gpu one_gpu ≡ (
  "CUDA is avaiable: True" ∷ "Using device: cuda" ∷ "Device Count: 1" ∷ "Device ID: 0"
      ∷ "Device Name: A100" ∷ "Memory Usage:" ∷ "Allocated: 0.0 GB" ∷ "Cached: 2.0 GB" ∷ [],
  "cuda",
)
unfolding check_gpu decimal decimal_within
one_gpu-check_gpu = refl
