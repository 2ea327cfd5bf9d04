-- ===== src/Tests/Trials.antt =====
-- A replacement that looks up what follows the first dollar sign, and one trial of each pipeline.
use Prim.Native.Char.{code}
use Prim.Native.String.append
use kubefrog_kvmserver.Prelude.{
  String, ◌<>◌, ◌≡◌, refl, ap, Bool, true, false, ◌||◌, List, [], ◌∷◌, ◌++◌, ◌==◌, string_eq,
  nat_eq, if◌then◌else◌,
}
use kubefrog_kvmserver.Python.Json.{Json, str}
use kubefrog_kvmserver.Katib.Filling.{fill, Replaces, valued, has_dollar}
use kubefrog_kvmserver.Katib.Trials.{launcher_arguments, fill-mpi_job}
use kubefrog_kvmserver.Katib.MpiJob
use kubefrog_kvmserver.Katib.MedianStop

-- The value for a placeholder; any other text stays.
abbrev value_for : List (String × String) → String → String
value_for [] t = t
value_for ((p, v) ∷ table) t = if t == p then v else value_for table t

abbrev replace : List (String × String) → String → String
replace table String.[] = String.[]
replace table (String.◌∷◌ c s) =
    let rest = replace table s in
    if code c == b'$' then value_for table (String.◌∷◌ c s) else String.◌∷◌ c rest

no_dollar : (a b : Bool) → a || b ≡ false → (a ≡ false) × (b ≡ false)
no_dollar true b h = cc
no_dollar false b h = (refl, h)

replace-plain :
    (table : List (String × String)) (t : String) → has_dollar t ≡ false → replace table t ≡ t
replace-plain table String.[] h = refl
replace-plain table (String.◌∷◌ c s) h =
    let (here, rest) = no_dollar (code c == b'$') (has_dollar s) h in
    rw here (ap (String.◌∷◌ c) (replace-plain table s rest))

replace-placed :
    (table : List (String × String)) (before placed v : String)
    → has_dollar before ≡ false
    → replace table placed ≡ v
    → replace table (before <> placed) ≡ before <> v
replace-placed table String.[] placed v h e = rw (append.nil placed, append.nil v) e
replace-placed table (String.◌∷◌ c s) placed v h e =
    let (here, rest) = no_dollar (code c == b'$') (has_dollar s) h in
    rw (append.cons c s placed, append.cons c s v, here)
      (ap (String.◌∷◌ c) (replace-placed table s placed v rest e))

abbrev mpi_values : List (String × String)
mpi_values =
    ("${trialParameters.learningRate}", "0.002") ∷ ("${trialParameters.numberSteps}", "70") ∷ []

mpi-Replaces :
    Replaces MpiJob.experiment_spec.trial_template
      (valued MpiJob.experiment_spec.parameters ("0.002" ∷ "70" ∷ []))
      (replace mpi_values)
mpi-Replaces = (
  replace-plain mpi_values,
  (
    λ before v h e. replace-placed mpi_values before "${trialParameters.learningRate}" v h cc,
    (λ before v h e. replace-placed mpi_values before "${trialParameters.numberSteps}" v h cc, tt),
  ),
)

fill-mpi_job_example :
    let trial = fill (replace mpi_values) MpiJob.experiment_spec.trial_template.trial_spec in
    (trial ≡ MpiJob.mpi_job "0.002" "70")
    × ((before : List Json) × (launcher_arguments trial
          ≡ before
            ++ (str "python"
                ∷ str "/examples/tensorflow_mnist.py"
                ∷ str "--lr"
                ∷ str "0.002"
                ∷ str "--num-steps"
                ∷ str "70"
                ∷ [])))
fill-mpi_job_example = fill-mpi_job (replace mpi_values) "0.002" "70" mpi-Replaces

abbrev job_values : List (String × String)
job_values =
    ("${trialParameters.learningRate}", "0.05")
    ∷ ("${trialParameters.numberLayers}", "3")
    ∷ ("${trialParameters.optimizer}", "adam")
    ∷ []
