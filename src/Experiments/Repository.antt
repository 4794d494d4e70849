-- ===== src/Experiments/Repository.antt =====
-- nexusfeed/db/repositories/experiment_repo.py on the tables experiments and experiment_results of
-- nexusfeed/db/models.py. A query reads the tables, and names are unique. The id that the database
-- gives a new experiment is an argument. The config column and the time stamps are left out.
use nexusfeed.Prelude.{
  ℕ, ◌+◌, Bool, false, Option, none, some, List, [], ◌∷◌, ◌++◌, map, String, if◌then◌else◌, ◌==◌,
  string_eq, filter,
}
use nexusfeed.Prelude.Int.{ℤ, pos, ◌+ℤ◌}
use nexusfeed.Types.{Uuid, Time}

pub record Experiment : Type 0 where
  pub id : Uuid
  pub name : String
  pub control_low : ℤ
  pub control_high : ℤ
  pub treatment_low : ℤ
  pub treatment_high : ℤ
  pub status : String
  pub ended_at : Option Time

pub record ExperimentResult : Type 0 where
  pub experiment_id : Uuid
  pub variant : String
  pub impressions : ℕ
  pub clicks : ℕ
  pub shares : ℕ
  pub dwell_ms_total : ℤ
  pub returns : ℕ

pub record Tables : Type 0 where
  pub experiments : List Experiment
  pub results : List ExperimentResult

abbrev pub new_result : Uuid → String → ExperimentResult
new_result id variant = record {
  experiment_id = id;
  variant = variant;
  impressions = 0;
  clicks = 0;
  shares = 0;
  dwell_ms_total = pos 0;
  returns = 0;
}

unfoldable pub create :
    (id : Uuid) (name : String) (control_range treatment_range : ℤ × ℤ)
    → Tables
    → Tables × Experiment
create id name control_range treatment_range db =
    let experiment : Experiment = record {
      id = id;
      name = name;
      control_low = control_range.0;
      control_high = control_range.1;
      treatment_low = treatment_range.0;
      treatment_high = treatment_range.1;
      status = "active";
      ended_at = none;
    } in
    (
      record {
        experiments = db.experiments ++ experiment ∷ [];
        results = db.results ++ map (new_result id) ("control" ∷ "treatment" ∷ "holdback" ∷ []);
      },
      experiment,
    )

unfoldable pub get_by_name : String → List Experiment → Option Experiment
get_by_name name [] = none
get_by_name name (experiment ∷ experiments) =
    if experiment.name == name then some experiment else get_by_name name experiments

unfoldable pub list_active : Tables → List Experiment
list_active db = filter (λ experiment. experiment.status == "active") db.experiments

-- the keyword arguments of `_bump`: which field grows, and by how much
pub data Delta : Type 0 where
  impressions clicks shares : ℕ → Delta
  dwell_ms_total : ℤ → Delta

abbrev pub apply_delta : Delta → ExperimentResult → ExperimentResult
apply_delta (Delta.impressions n) row = record row { impressions = row.impressions + n }
apply_delta (Delta.clicks n) row = record row { clicks = row.clicks + n }
apply_delta (Delta.shares n) row = record row { shares = row.shares + n }
apply_delta (Delta.dwell_ms_total n) row = record row { dwell_ms_total = row.dwell_ms_total +ℤ n }

abbrev pub is_row : Uuid → String → ExperimentResult → Bool
is_row experiment_id variant row =
    if row.experiment_id == experiment_id then row.variant == variant else false

-- the row of the variant, if there is one, gets the delta
unfoldable pub bump :
    Uuid → (variant : String) → Delta → List ExperimentResult → List ExperimentResult
bump experiment_id variant delta [] = []
bump experiment_id variant delta (row ∷ rows) =
    let rest = bump experiment_id variant delta rows in
    if is_row experiment_id variant row then apply_delta delta row ∷ rows else row ∷ rest

unfoldable pub find_row :
    Uuid → (variant : String) → List ExperimentResult → Option ExperimentResult
find_row experiment_id variant [] = none
find_row experiment_id variant (row ∷ rows) =
    if is_row experiment_id variant row then some row else find_row experiment_id variant rows

unfoldable pub results_for : Uuid → List ExperimentResult → List ExperimentResult
results_for experiment_id rows = filter (λ row. row.experiment_id == experiment_id) rows
