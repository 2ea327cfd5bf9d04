-- ===== src/Training.antt =====
-- examples/pipelines/train_until_good.py: a pipeline that trains a model until its error is low. The
-- components that it loads from their addresses are arguments.
use kubefrog_kvmserver.Prelude.{
  ℕ, zero, suc, String, ◌≡◌, ◌≤◌, ◌<◌, refl, Bool, true, false, Option, none, some, if◌then◌else◌,
  arith, inl, inr, Bool-cases,
}

-- What each component computes, and how the pipeline's engine compares an output with a number.
pub record Components : Type 1 where
  pub Table : Type 0
  pub Model : Type 0
  pub Number : Type 0
  pub taxi_dataset : String → String → ℕ → Table
  pub transform : Table → String → Table
  pub drop_header : Table → Table
  -- Training from no model or from a starting model, for a number of iterations.
  pub train : Option Model → Table → ℕ → Model
  pub predict : Table → Model → Table
  pub metrics : Table → Table → String → Number
  pub is_above : Number → String → Bool

module _ (c : Components) where
  -- One round of `train_until_low_error`: the model after it.
  abbrev pub train_round : c.Table → c.Model → c.Model
  train_round training_data starting_model = c.train (some starting_model) training_data 50

  -- The condition of the recursive call, `metrics_task.outputs['mean_squared_error'] > 0.01`, on the
  -- model of the round.
  abbrev pub is_bad : c.Table → c.Table → c.Model → Bool
  is_bad training_data true_values model =
      c.is_above (c.metrics true_values (c.predict training_data model) "mean_squared_error") "0.01"

  -- On fuel; `none` means that the rounds have not ended yet.
  unfoldable pub train_until_low_error : ℕ → c.Table → c.Table → c.Model → Option c.Model
  train_until_low_error zero training_data true_values starting_model = none
  train_until_low_error (suc fuel) training_data true_values starting_model =
      let model = train_round training_data starting_model in
      let more = train_until_low_error fuel training_data true_values model in
      if is_bad training_data true_values model then more else some model

  abbrev pub training_table : c.Table
  training_table =
      c.taxi_dataset
        "trip_start_timestamp >= \"2019-01-01\" AND trip_start_timestamp < \"2019-02-01\""
        "tips,trip_seconds,trip_miles,pickup_community_area,dropoff_community_area,fare,tolls,extras,trip_total"
        10000

  abbrev pub true_values_table : c.Table
  true_values_table = c.drop_header (c.transform training_table "df = df[[\"tips\"]]")

  -- `train_until_good_pipeline`: the first model, and the rounds after it.
  unfoldable pub train_until_good_pipeline : ℕ → Option c.Model
  unfolding train_until_low_error
  train_until_good_pipeline fuel =
      train_until_low_error fuel training_table true_values_table (c.train none training_table 100)

  -- The model after some rounds.
  abbrev pub trained : ℕ → c.Table → c.Model → c.Model
  trained zero training_data model = model
  trained (suc n) training_data model = trained n training_data (train_round training_data model)

  -- The rounds end with round `n`: its model is good, and those of the rounds before are not.
  abbrev pub EndsAt : ℕ → c.Table → c.Table → c.Model → Type 0
  EndsAt zero training_data true_values model =
      is_bad training_data true_values (train_round training_data model) ≡ false
  EndsAt (suc n) training_data true_values model =
      (is_bad training_data true_values (train_round training_data model) ≡ true)
      × EndsAt n training_data true_values (train_round training_data model)

  first_end :
      (n : ℕ) (training_data true_values : c.Table) (model : c.Model)
      → is_bad training_data true_values (trained (suc n) training_data model) ≡ false
      → (k : ℕ) × (k ≤ n) × EndsAt k training_data true_values model
  first_end zero training_data true_values model h = (0, omega arith, h)
  first_end (suc n) training_data true_values model h =
      elim (Bool-cases (is_bad training_data true_values (train_round training_data model))) [
        | inr good ↦ (0, omega arith, good)
        | inl bad ↦
            let (k, small, ends) =
              first_end n training_data true_values (train_round training_data model) h in
            (suc k, omega arith, (bad, ends))
      ]

  ends_with :
      (k fuel : ℕ) (training_data true_values : c.Table) (model : c.Model)
      → k < fuel
      → EndsAt k training_data true_values model
      → train_until_low_error fuel training_data true_values model
        ≡ some (trained (suc k) training_data model)
  unfolding train_until_low_error
  ends_with k zero training_data true_values model small ends = absurd (omega arith)
  ends_with zero (suc fuel) training_data true_values model small ends = rw ends refl
  ends_with (suc k) (suc fuel) training_data true_values model small ends = rw ends.0 (
      ends_with k fuel training_data true_values (train_round training_data model) (omega arith)
        ends.1)

  -- If the model is good after some round, the pipeline ends with the model of the first round after
  -- which it is, and fuel for the known number of rounds is enough.
  pub train_until_good_pipeline-ends :
      (n fuel : ℕ)
      → n < fuel
      → is_bad training_table true_values_table
          (trained (suc n) training_table (c.train none training_table 100))
        ≡ false
      → (k : ℕ) × (k ≤ n)
        × EndsAt k training_table true_values_table (c.train none training_table 100)
        × (train_until_good_pipeline fuel
            ≡ some (trained (suc k) training_table (c.train none training_table 100)))
  unfolding train_until_good_pipeline
  train_until_good_pipeline-ends n fuel small good =
      let (k, le, ends) = first_end n training_table true_values_table _ good in
      (k, le, ends, ends_with k fuel training_table true_values_table _ (omega arith) ends)

  runs_on :
      (fuel : ℕ) (training_data true_values : c.Table) (model : c.Model)
      → ((n : ℕ) → is_bad training_data true_values (trained (suc n) training_data model) ≡ true)
      → train_until_low_error fuel training_data true_values model ≡ none
  unfolding train_until_low_error
  runs_on zero training_data true_values model bad = refl
  runs_on (suc fuel) training_data true_values model bad =
      rw (bad 0) (
        runs_on fuel training_data true_values (train_round training_data model) (λ n. bad (suc n)))

  -- If the model is bad after every round, the pipeline has no end: no fuel is enough.
  pub train_until_good_pipeline-runs_on :
      (fuel : ℕ)
      → ((n : ℕ)
          → is_bad training_table true_values_table
              (trained (suc n) training_table (c.train none training_table 100))
            ≡ true)
      → train_until_good_pipeline fuel ≡ none
  unfolding train_until_good_pipeline
  train_until_good_pipeline-runs_on fuel bad = runs_on fuel training_table true_values_table _ bad
