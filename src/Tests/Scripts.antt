-- ===== src/Tests/Scripts.antt =====
-- The training pipeline, and the script that asks an explainer.
use kubefrog_kvmserver.ModelDownload
use kubefrog_kvmserver.KnativeApp
use kubefrog_kvmserver.Controller.Settings.{Env}
use kubefrog_kvmserver.Python.Numeral.{pos}
use kubefrog_kvmserver.Prelude.{
  ℕ, suc, ◌<>◌, ◌+◌, String, ◌≡◌, ◌≢◌, ◌≤◌, ◌<◌, refl, Bool, true, none, some, List, [], ◌∷◌, ◌++◌,
  arith, ltb, ◌==◌, nat_eq, string_eq, if◌then◌else◌,
}
use kubefrog_kvmserver.Python.Errors.{ok}
use kubefrog_kvmserver.Python.Json.{Json, str}
use kubefrog_kvmserver.Training.{
  Components, EndsAt, trained, training_table, true_values_table, train_until_good_pipeline,
  train_until_good_pipeline-ends, train_until_good_pipeline-runs_on,
}
use kubefrog_kvmserver.Explain.{plot}
use kubefrog_kvmserver.Explain.Laws.{shown_all, blanks, plot-shown_all}

-- A model is the number of its iterations, and its error is above the limit below this number.
abbrev components_with : ℕ → Components
components_with limit = record {
  Table = String;
  Model = ℕ;
  Number = String;
  taxi_dataset = λ condition columns n. "taxi";
  transform = λ table program. "tips";
  drop_header = λ table. table;
  train = λ start table iterations. elim start [ none ↦ iterations | some n ↦ n + iterations ];
  predict = λ table model. if ltb model limit then "bad" else "good";
  metrics = λ true_values predicted name. predicted;
  is_above = λ m limit. m == "bad";
}

abbrev components : Components
components = components_with 220

train_until_good_pipeline-ends_example :
    (k : ℕ) × (k ≤ 4)
    × EndsAt components k (training_table components) (true_values_table components) 100
    × (train_until_good_pipeline components 9
        ≡ some (trained components (suc k) (training_table components) 100))
train_until_good_pipeline-ends_example =
    train_until_good_pipeline-ends components 4 9 (omega arith) refl

-- No model is ever good.
abbrev hopeless : Components
hopeless = record components { is_above = λ m limit. true }

train_until_good_pipeline-runs_on_example : train_until_good_pipeline hopeless 1000 ≡ none
train_until_good_pipeline-runs_on_example =
    train_until_good_pipeline-runs_on hopeless 1000 (λ n. refl)

abbrev labels : List Json
labels = str "3" ∷ str "8" ∷ []

some_labels : labels ≢ []
some_labels e = cc

plot-shown_all_example :
    (empty : ℕ) × (empty < 5)
    × (plot labels (str "m3" ∷ str "m8" ∷ [])
        ≡ ok (shown_all labels (str "m3" ∷ str "m8" ∷ []) ++ blanks empty))
plot-shown_all_example = plot-shown_all labels (str "m3" ∷ str "m8" ∷ []) some_labels (omega arith)

abbrev is_zero : ℕ → Bool
is_zero n = n == 0

-- A directory with the snapshots of two models, of which the second one is downloaded.
abbrev cache : ModelDownload.Host
cache = record {
  State = List String;
  mkdir = λ directory names. (ok tt, names);
  snapshot_download =
      λ repo revision directory names. (ok ("models/" <> repo), names ++ ("models/" <> repo) ∷ []);
  glob = λ directory pattern names. (ok names, names);
}

abbrev options : ModelDownload.Options
options = record { model_name = some "new"; model_dir = none; revision = none }

-- The line names the snapshot of the older model.
older_snapshot :
    ModelDownload.main cache options ("models/old" ∷ [])
    ≡ (ok "export output_dir=models/old", "models/old" ∷ "models/new" ∷ [])
unfolding ModelDownload.main
older_snapshot = refl

no_variables : Env
no_variables name = none

greeting : KnativeApp.hello_world no_variables ≡ "Hello World!\n"
unfolding no_variables
greeting = refl

greeting_server :
    KnativeApp.main no_variables ≡ ok (record { debug = true; host = "0.0.0.0"; port = pos 8080 })
unfolding KnativeApp.main no_variables
greeting_server = refl
