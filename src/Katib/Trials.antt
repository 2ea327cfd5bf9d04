-- ===== src/Katib/Trials.antt =====
-- The trials that Katib makes of the templates of both pipelines.
use kubefrog_kvmserver.Prelude.{String, ◌≡◌, refl, ap, ap₂, ◌∙◌, List, [], ◌∷◌, ◌++◌, map}
use Prim.Native.String.append
use kubefrog_kvmserver.Python.Json.{Json, str}
use kubefrog_kvmserver.Python.Json.Literal.{elements}
use kubefrog_kvmserver.Controller.Inventory.{child}
use kubefrog_kvmserver.Katib.{TrialParameterSpec}
use kubefrog_kvmserver.Katib.Filling.{fill, Replaces, valued, Use, fill-put_values}
use kubefrog_kvmserver.Katib.MpiJob
use kubefrog_kvmserver.Katib.MedianStop

-- Each parameter with the text before its placeholder and the value for it.
abbrev uses : List String → List TrialParameterSpec → List String → List Use
uses [] ps vs = []
uses (b ∷ bs) [] vs = []
uses (b ∷ bs) (p ∷ ps) [] = []
uses (b ∷ bs) (p ∷ ps) (v ∷ vs) = (b, p, v) ∷ uses bs ps vs

abbrev pub first_args : List Json → List Json
first_args [] = []
first_args (container ∷ others) = elements (child container "args")

-- The arguments of the first container of an MPIJob's launcher.
abbrev pub launcher_arguments : Json → List Json
launcher_arguments job =
    let launcher = child (child (child job "spec") "mpiReplicaSpecs") "Launcher" in
    first_args (elements (child (child (child launcher "template") "spec") "containers"))

filled_mpi_job :
    (substitute : String → String) (lr num_steps : String)
    → Replaces MpiJob.experiment_spec.trial_template
        (valued MpiJob.experiment_spec.parameters (lr ∷ num_steps ∷ []))
        substitute
    → fill substitute MpiJob.experiment_spec.trial_template.trial_spec ≡ MpiJob.mpi_job lr num_steps
filled_mpi_job substitute lr num_steps replaces =
    let template = MpiJob.experiment_spec.trial_template in
    let values = lr ∷ num_steps ∷ [] in
    fill-put_values template (valued MpiJob.experiment_spec.parameters values) substitute replaces
      (uses ("" ∷ "" ∷ []) template.trial_parameters values) template.trial_spec
      (([], _, refl, refl, refl), ((_ ∷ [], _, refl, refl, refl), tt)) refl
    ∙ ap₂ MpiJob.mpi_job (append.nil lr) (append.nil num_steps)

-- For any values of the search space's parameters, in their order, and a replacement of placeholders
-- as Katib documents it: the trial of mpi-job-horovod.py is the MPIJob that the template is with these
-- values, and its launcher runs the script with "--lr" before the value of the parameter "lr" and
-- "--num-steps" before that of "num-steps", and nothing after them.
pub fill-mpi_job :
    (substitute : String → String) (lr num_steps : String)
    → Replaces MpiJob.experiment_spec.trial_template
        (("lr", lr) ∷ ("num-steps", num_steps) ∷ [])
        substitute
    → let trial = fill substitute MpiJob.experiment_spec.trial_template.trial_spec in
      (trial ≡ MpiJob.mpi_job lr num_steps)
      × ((before : List Json) × (launcher_arguments trial
            ≡ before
              ++ (str "python"
                  ∷ str "/examples/tensorflow_mnist.py"
                  ∷ str "--lr"
                  ∷ str lr
                  ∷ str "--num-steps"
                  ∷ str num_steps
                  ∷ [])))
fill-mpi_job substitute lr num_steps replaces =
    let e = filled_mpi_job substitute lr num_steps replaces in
    let before =
      "-np" ∷ "2" ∷ "--allow-run-as-root" ∷ "-bind-to" ∷ "none" ∷ "-map-by" ∷ "slot" ∷ "-x"
      ∷ "LD_LIBRARY_PATH" ∷ "-x" ∷ "PATH" ∷ "-mca" ∷ "pml" ∷ "ob1" ∷ "-mca" ∷ "btl" ∷ "^openib"
      ∷ [] in
    (e, (map str before, ap launcher_arguments e))
