-- ===== src/Katib/MedianStop.antt =====
-- The cells of examples/pipeline_notebook/early-stopping.ipynb that make the pipeline.
use kubefrog_kvmserver.Prelude.{String, ◌<>◌, true, false, List, [], ◌∷◌, map, none, some}
use kubefrog_kvmserver.Python.Json.{Json, str}
use kubefrog_kvmserver.Python.Json.Literal.{dict, list}
use kubefrog_kvmserver.Katib.{
  ObjectiveSpec, AlgorithmSpec, ParameterSpec, between, one_of, TrialTemplate, ExperimentSpec,
  Launch, Sdk, Pipeline,
}

abbrev objective : ObjectiveSpec
objective = record {
  type = "maximize";
  goal = "0.99";
  objective_metric_name = "Validation-accuracy";
  additional_metric_names = some ("Train-accuracy" ∷ []);
}

abbrev algorithm : AlgorithmSpec
algorithm = record { algorithm_name = "random"; algorithm_settings = none }

abbrev early_stopping : AlgorithmSpec
early_stopping = record {
  algorithm_name = "medianstop";
  algorithm_settings = some (("min_trials_required", "2") ∷ []);
}

abbrev parameters : List ParameterSpec
parameters =
    record { name = "lr"; parameter_type = "double"; feasible_space = between "0.01" "0.3" }
    ∷ record { name = "num-layers"; parameter_type = "int"; feasible_space = between "2" "5" }
    ∷ record {
      name = "optimizer";
      parameter_type = "categorical";
      feasible_space = one_of ("sgd" ∷ "adam" ∷ "ftrl" ∷ []);
    }
    ∷ []

-- The container's command, from what follows the three signs of equality.
abbrev command : String → String → String → List String
command lr num_layers optimizer =
    "python3"
    ∷ "/opt/mxnet-mnist/mnist.py"
    ∷ "--batch-size=64"
    ∷ ("--lr=" <> lr)
    ∷ ("--num-layers=" <> num_layers)
    ∷ ("--optimizer=" <> optimizer)
    ∷ []

-- The Job with these three arguments.
abbrev pub job : String → String → String → Json
job lr num_layers optimizer = dict (
    ("apiVersion", str "batch/v1")
    ∷ ("kind", str "Job")
    ∷ (
      "spec",
      dict (
          (
            "template",
            dict (
                (
                  "metadata",
                  dict (("annotations", dict (("sidecar.istio.io/inject", str "false") ∷ [])) ∷ []),
                )
                ∷ (
                  "spec",
                  dict (
                      (
                        "containers",
                        list (
                            dict (
                              ("name", str "training-container")
                              ∷ ("image", str "docker.io/kubeflowkatib/mxnet-mnist:v1beta1-e294a90")
                              ∷ ("command", list (map str (command lr num_layers optimizer)))
                              ∷ [])
                            ∷ []),
                      )
                      ∷ ("restartPolicy", str "Never")
                      ∷ []),
                )
                ∷ []),
          )
          ∷ []),
    )
    ∷ [])

abbrev pub trial_spec : Json
trial_spec =
    job "${trialParameters.learningRate}" "${trialParameters.numberLayers}"
      "${trialParameters.optimizer}"

abbrev pub trial_template : TrialTemplate
trial_template = record {
  retain = some true;
  primary_pod_labels = none;
  primary_container_name = "training-container";
  success_condition = none;
  failure_condition = none;
  trial_parameters =
      record {
        name = "learningRate";
        description = "Learning rate for the training model";
        reference = "lr";
      }
      ∷ record {
        name = "numberLayers";
        description = "Number of training model layers";
        reference = "num-layers";
      }
      ∷ record {
        name = "optimizer";
        description = "Training model optimizer (sdg, adam or ftrl)";
        reference = "optimizer";
      }
      ∷ [];
  trial_spec = trial_spec;
}

abbrev pub experiment_spec : ExperimentSpec
experiment_spec = record {
  max_trial_count = 18;
  max_failed_trial_count = 3;
  parallel_trial_count = 2;
  objective = objective;
  algorithm = algorithm;
  early_stopping = some early_stopping;
  parameters = parameters;
  trial_template = trial_template;
}

abbrev launch : Sdk → Launch
launch sdk = record {
  experiment_name = "median-stop";
  experiment_namespace = "anonymous";
  experiment_spec = sdk.sanitize_for_serialization experiment_spec;
  experiment_timeout_minutes = 60;
  delete_finished_experiment = some false;
}

unfoldable pub median_stop : Sdk → Pipeline
median_stop sdk = record {
  name = "Launch Katib early stopping Experiment";
  description = "An example to launch Katib Experiment with early stopping";
  launched = launch sdk;
  printed = record {
    name = "best-hp";
    image = "library/bash:4.4.23";
    command = "sh" ∷ "-c" ∷ [];
    arguments = ("echo Best HyperParameters: " <> sdk.output (launch sdk)) ∷ [];
  };
}
