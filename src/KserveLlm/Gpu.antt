-- ===== src/KserveLlm/Gpu.antt =====
-- `check_gpu` of examples/kserve-llm/docker/models.py and of examples/kserve-fluid/fluid/docker/models.py:
-- what it logs of the GPUs, and the device that it names. What torch says of them is an argument.
use kubefrog_kvmserver.Prelude.{
  ℕ, zero, suc, ◌+◌, ◌*◌, ◌<◌, String, ◌<>◌, ◌≡◌, refl, ◌∙◌, ap, Bool, true, List, [], ◌∷◌, ◌++◌,
  length, length-append, ◌==◌, string_eq, if◌then◌else◌, arith,
}
use native.Mathlib.Decide.{dec_lt}
use mathlib.Core.List.{append_assoc}
use kubefrog_kvmserver.Python.Dumps.{decimal}

-- `torch.cuda`, with `round(n / 1024 ** 3, 1)` as an f-string puts it in.
pub record Cuda : Type 0 where
  pub is_available : Bool
  pub device_count : ℕ
  pub get_device_name : ℕ → String
  pub memory_allocated : ℕ → ℕ
  pub memory_reserved : ℕ → ℕ
  pub gigabytes : ℕ → String

-- The lines for one GPU.
abbrev pub device_lines : Cuda → ℕ → List String
device_lines cuda i =
    ("Device ID: " <> decimal i)
    ∷ ("Device Name: " <> cuda.get_device_name i)
    ∷ "Memory Usage:"
    ∷ ("Allocated: " <> cuda.gigabytes (cuda.memory_allocated i) <> " GB")
    ∷ ("Cached: " <> cuda.gigabytes (cuda.memory_reserved i) <> " GB")
    ∷ []

-- The body of the loop for the numbers below one.
abbrev pub lines_below : Cuda → ℕ → List String
lines_below cuda zero = []
lines_below cuda (suc i) = lines_below cuda i ++ device_lines cuda i

abbrev pub device_type : Bool → String
device_type available = if available then "cuda" else "cpu"

-- What is logged, from the answer of `torch.cuda.is_available()`.
abbrev pub logged : Bool → Cuda → List String
logged available cuda =
    ("CUDA is avaiable: " <> (if available then "True" else "False"))
    ∷ ("Using device: " <> device_type available)
    ∷ (if device_type available == "cuda"
        then ("Device Count: " <> decimal cuda.device_count) ∷ lines_below cuda cuda.device_count
        else [])

-- The logged lines, and the returned type of the device.
unfoldable pub check_gpu : Cuda → List String × String
check_gpu cuda = (logged cuda.is_available cuda, device_type cuda.is_available)

-- The loop logs five lines for every GPU.
lines_below-length : (cuda : Cuda) (n : ℕ) → length (lines_below cuda n) ≡ 5 * n
lines_below-length cuda zero = refl
lines_below-length cuda (suc n) =
    length-append (lines_below cuda n) (device_lines cuda n)
    ∙ omega (arith, lines_below-length cuda n)

-- The lines of a GPU stand after those of the ones before it, and nothing else stands between.
lines_below-split :
    (cuda : Cuda) (i n : ℕ)
    → i < n
    → (later : List String) × (lines_below cuda n
        ≡ lines_below cuda i ++ (device_lines cuda i ++ later))
lines_below-split cuda i zero h = absurd (omega (arith, h))
lines_below-split cuda i (suc n) h = elim (dec_lt i n) [
  | yes below ↦
      let (later, e) = lines_below-split cuda i n below in
      (
        later ++ device_lines cuda n,
        ap (λ l. l ++ device_lines cuda n) e
            ∙ append_assoc (lines_below cuda i) (device_lines cuda i ++ later)
                (device_lines cuda n),
      )
  | no last ↦ let at_end : i ≡ n = omega arith in ([], rw at_end refl)
]

-- When CUDA is available, the lines of every GPU are logged, after three lines and those of the GPUs
-- before it.
check_gpu-lists :
    (cuda : Cuda) (i : ℕ)
    → cuda.is_available ≡ true
    → i < cuda.device_count
    → (earlier : List String) × (later : List String) × ((check_gpu cuda).0
        ≡ earlier ++ (device_lines cuda i ++ later))
      × (length earlier ≡ 3 + 5 * i)
unfolding check_gpu
check_gpu-lists cuda i available below =
    let (later, e) = lines_below-split cuda i cuda.device_count below in
    (
      "CUDA is avaiable: True"
          ∷ "Using device: cuda"
          ∷ ("Device Count: " <> decimal cuda.device_count)
          ∷ lines_below cuda i,
      later,
      ap (λ b. logged b cuda) available
          ∙ ap
              (λ l.
                "CUDA is avaiable: True"
                ∷ "Using device: cuda"
                ∷ ("Device Count: " <> decimal cuda.device_count)
                ∷ l)
              e,
      omega (arith, lines_below-length cuda i),
    )
