-- ===== src/Katib.antt =====
-- The two pipelines of examples/pipeline_notebook that start an experiment of Katib: what they hand to
-- the classes of the SDKs of Katib and kfp, by its keyword arguments. The SDKs are arguments.
pub mod MpiJob
pub mod MedianStop
pub mod Filling
pub mod Trials
use kubefrog_kvmserver.Prelude.{ℕ, String, Bool, List, Option, ◌<>◌}
use kubefrog_kvmserver.Python.Json.{Json}

-- `goal` is the float as it is written.
pub record ObjectiveSpec : Type 0 where
  pub type : String
  pub goal : String
  pub objective_metric_name : String
  pub additional_metric_names : Option (List String)

-- Of an algorithm, or of the early stopping: a name and a text.
abbrev pub Setting : Type 0
Setting = String × String

pub record AlgorithmSpec : Type 0 where
  pub algorithm_name : String
  pub algorithm_settings : Option (List Setting)

pub data FeasibleSpace : Type 0 where
  between : (min max : String) → FeasibleSpace
  stepped : (min max step : String) → FeasibleSpace
  one_of : List String → FeasibleSpace

pub record ParameterSpec : Type 0 where
  pub name : String
  pub parameter_type : String
  pub feasible_space : FeasibleSpace

pub record TrialParameterSpec : Type 0 where
  pub name : String
  pub description : String
  pub reference : String

pub record TrialTemplate : Type 0 where
  pub retain : Option Bool
  pub primary_pod_labels : Option Json
  pub primary_container_name : String
  pub success_condition : Option String
  pub failure_condition : Option String
  pub trial_parameters : List TrialParameterSpec
  pub trial_spec : Json

pub record ExperimentSpec : Type 0 where
  pub max_trial_count : ℕ
  pub max_failed_trial_count : ℕ
  pub parallel_trial_count : ℕ
  pub objective : ObjectiveSpec
  pub algorithm : AlgorithmSpec
  pub early_stopping : Option AlgorithmSpec
  pub parameters : List ParameterSpec
  pub trial_template : TrialTemplate

-- The arguments of the launcher's component, with the serialised specification.
pub record Launch : Type 0 where
  pub experiment_name : String
  pub experiment_namespace : String
  pub experiment_spec : Json
  pub experiment_timeout_minutes : ℕ
  pub delete_finished_experiment : Option Bool

pub record ContainerOp : Type 0 where
  pub name : String
  pub image : String
  pub command : List String
  pub arguments : List String

-- `ApiClient().sanitize_for_serialization`, and the output of a launcher's step.
pub record Sdk : Type 0 where
  pub sanitize_for_serialization : ExperimentSpec → Json
  pub output : Launch → String

-- The steps of a pipeline.
pub record Pipeline : Type 0 where
  pub name : String
  pub description : String
  pub launched : Launch
  pub printed : ContainerOp
