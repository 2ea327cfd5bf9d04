-- ===== src/Katib/MpiJob.antt =====
-- examples/pipeline_notebook/mpi-job-horovod.py.
use kubefrog_kvmserver.Prelude.{ℕ, String, ◌<>◌, List, [], ◌∷◌, map, none, some}
use kubefrog_kvmserver.Python.Json.{Json, num, str}
use kubefrog_kvmserver.Python.Json.Literal.{dict, list}
use kubefrog_kvmserver.Katib.{
  ObjectiveSpec, AlgorithmSpec, ParameterSpec, between, stepped, TrialTemplate, ExperimentSpec,
  Launch, Sdk, Pipeline,
}

abbrev objective : ObjectiveSpec
objective = record {
  type = "minimize";
  goal = "0.01";
  objective_metric_name = "loss";
  additional_metric_names = none;
}

abbrev algorithm : AlgorithmSpec
algorithm = record {
  algorithm_name = "bayesianoptimization";
  algorithm_settings = some (("random_state", "10") ∷ []);
}

abbrev parameters : List ParameterSpec
parameters =
    record { name = "lr"; parameter_type = "double"; feasible_space = between "0.001" "0.003" }
    ∷ record {
      name = "num-steps";
      parameter_type = "int";
      feasible_space = stepped "50" "150" "10";
    }
    ∷ []

-- The `metadata` of both pods.
abbrev metadata : Json
metadata = dict (("annotations", dict (("sidecar.istio.io/inject", str "false") ∷ [])) ∷ [])

-- The `resources` of a container.
abbrev resources : String → Json
resources memory = dict (("limits", dict (("cpu", str "500m") ∷ ("memory", str memory) ∷ [])) ∷ [])

-- A member of `mpiReplicaSpecs`, with its only container.
abbrev replica : ℕ → Json → Json
replica replicas container = dict (
    ("replicas", num replicas)
    ∷ (
      "template",
      dict (
          ("metadata", metadata)
          ∷ ("spec", dict (("containers", list (container ∷ [])) ∷ []))
          ∷ []),
    )
    ∷ [])

-- The launcher's arguments, from those after "--lr" and "--num-steps".
abbrev launcher_args : String → String → List String
launcher_args lr num_steps =
    "-np" ∷ "2" ∷ "--allow-run-as-root" ∷ "-bind-to" ∷ "none" ∷ "-map-by" ∷ "slot" ∷ "-x"
    ∷ "LD_LIBRARY_PATH" ∷ "-x" ∷ "PATH" ∷ "-mca" ∷ "pml" ∷ "ob1" ∷ "-mca" ∷ "btl" ∷ "^openib"
    ∷ "python" ∷ "/examples/tensorflow_mnist.py" ∷ "--lr" ∷ lr ∷ "--num-steps" ∷ num_steps ∷ []

abbrev launcher_container : String → String → Json
launcher_container lr num_steps = dict (
    ("image", str "docker.io/kubeflow/mpi-horovod-mnist")
    ∷ ("name", str "mpi-launcher")
    ∷ ("command", list (str "mpirun" ∷ []))
    ∷ ("args", list (map str (launcher_args lr num_steps)))
    ∷ ("resources", resources "2Gi")
    ∷ [])

abbrev worker_container : Json
worker_container = dict (
    ("image", str "docker.io/kubeflow/mpi-horovod-mnist")
    ∷ ("name", str "mpi-worker")
    ∷ ("resources", resources "4Gi")
    ∷ [])

-- The MPIJob with these two arguments.
abbrev pub mpi_job : String → String → Json
mpi_job lr num_steps = dict (
    ("apiVersion", str "kubeflow.org/v1")
    ∷ ("kind", str "MPIJob")
    ∷ (
      "spec",
      dict (
          ("slotsPerWorker", num 1)
          ∷ ("cleanPodPolicy", str "Running")
          ∷ (
            "mpiReplicaSpecs",
            dict (
                ("Launcher", replica 1 (launcher_container lr num_steps))
                ∷ ("Worker", replica 2 worker_container)
                ∷ []),
          )
          ∷ []),
    )
    ∷ [])

abbrev pub trial_spec : Json
trial_spec = mpi_job "${trialParameters.learningRate}" "${trialParameters.numberSteps}"

abbrev pub trial_template : TrialTemplate
trial_template = record {
  retain = none;
  primary_pod_labels = some (dict (("mpi-job-role", str "launcher") ∷ []));
  primary_container_name = "mpi-launcher";
  success_condition = some "status.conditions.#(type==\"Succeeded\")#|#(status==\"True\")#";
  failure_condition = some "status.conditions.#(type==\"Failed\")#|#(status==\"True\")#";
  trial_parameters =
      record {
        name = "learningRate";
        description = "Learning rate for the training model";
        reference = "lr";
      }
      ∷ record {
        name = "numberSteps";
        description = "Number of training steps";
        reference = "num-steps";
      }
      ∷ [];
  trial_spec = trial_spec;
}

abbrev pub experiment_spec : ExperimentSpec
experiment_spec = record {
  max_trial_count = 6;
  max_failed_trial_count = 3;
  parallel_trial_count = 2;
  objective = objective;
  algorithm = algorithm;
  early_stopping = none;
  parameters = parameters;
  trial_template = trial_template;
}

abbrev launch : Sdk → Launch
launch sdk = record {
  experiment_name = "mpi-horovod-mnist";
  experiment_namespace = "anonymous";
  experiment_spec = sdk.sanitize_for_serialization experiment_spec;
  experiment_timeout_minutes = 60;
  delete_finished_experiment = none;
}

unfoldable pub horovod_mnist_hpo : Sdk → Pipeline
horovod_mnist_hpo sdk = record {
  name = "Launch Katib MPIJob Experiment";
  description = "An example to launch Katib Experiment with MPIJob";
  launched = launch sdk;
  printed = record {
    name = "best-hp";
    image = "library/bash:4.4.23";
    command = "sh" ∷ "-c" ∷ [];
    arguments = ("echo Best HyperParameters: " <> sdk.output (launch sdk)) ∷ [];
  };
}
