-- ===== src/Experiments/Metrics.antt =====
-- nexusfeed/experiments/metrics_tracker.py: `MetricsTracker`, on the rows of experiment_results, and
-- `ExperimentMetrics.ctr` of nexusfeed/types.py.
pub mod Counts
use nexusfeed.Prelude.{
  ℕ, Bool, true, false, Option, none, some, List, [], ◌∷◌, String, if◌then◌else◌, ◌==◌, string_eq,
  nat_beq, put,
}
use nexusfeed.Prelude.Int.{ℤ, pos, negsuc}
use nexusfeed.Float.{Float, zero_score}
use nexusfeed.Types.{Uuid, EventType, ExperimentMetrics}
use nexusfeed.Experiments.Repository.{ExperimentResult, Delta, bump, results_for}

unfoldable pub record_impression :
    Uuid → (variant : String) → List ExperimentResult → List ExperimentResult
record_impression experiment_id variant rows = bump experiment_id variant (Delta.impressions 1) rows

-- `and dwell_ms`: neither None nor zero
abbrev pub dwell_delta : Option ℤ → Option Delta
dwell_delta none = none
dwell_delta (some (pos n)) = if nat_beq n 0 then none else some (Delta.dwell_ms_total (pos n))
dwell_delta (some (negsuc n)) = some (Delta.dwell_ms_total (negsuc n))

-- what the `if` chain of `record_event` records
abbrev pub delta_of : EventType → Option ℤ → Option Delta
delta_of EventType.click dwell_ms = some (Delta.clicks 1)
delta_of EventType.share dwell_ms = some (Delta.shares 1)
delta_of EventType.save dwell_ms = some (Delta.shares 1)
delta_of EventType.dwell dwell_ms = dwell_delta dwell_ms
delta_of _ dwell_ms = none

unfoldable pub record_event :
    Uuid
    → (variant : String) (event_type : EventType) (dwell_ms : Option ℤ) → List ExperimentResult
    → List ExperimentResult
record_event experiment_id variant event_type dwell_ms rows = elim (delta_of event_type dwell_ms) [
  | none ↦ rows
  | some delta ↦ bump experiment_id variant delta rows
]

abbrev pub metrics_of : Uuid → ExperimentResult → ExperimentMetrics
metrics_of experiment_id row = record {
  experiment_name = experiment_id;
  variant = row.variant;
  impressions = row.impressions;
  clicks = row.clicks;
  shares = row.shares;
  dwell_ms_total = row.dwell_ms_total;
  returns = row.returns;
}

unfoldable pub metrics_into :
    Uuid
    → List (String × ExperimentMetrics)
    → List ExperimentResult
    → List (String × ExperimentMetrics)
metrics_into experiment_id d [] = d
metrics_into experiment_id d (row ∷ rows) =
    metrics_into experiment_id (put row.variant (metrics_of experiment_id row) d) rows

unfoldable pub get_metrics : Uuid → List ExperimentResult → List (String × ExperimentMetrics)
get_metrics experiment_id rows = metrics_into experiment_id [] (results_for experiment_id rows)

unfoldable pub ctr : {W : Type 0} ⦃f : Float W⦄ → ExperimentMetrics → W
ctr ⦃f⦄ m =
    if nat_beq m.impressions 0 then zero_score else f.div (f.lit m.clicks 1) (f.lit m.impressions 1)
