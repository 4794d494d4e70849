-- ===== src/Experiments/Manager.antt =====
-- nexusfeed/experiments/experiment_manager.py: `ExperimentManager`. The Prometheus counters are left
-- out.
pub mod Assignment
use nexusfeed.Prelude.{
  ℕ, Bool, true, false, Option, none, some, List, [], ◌∷◌, String, if◌then◌else◌, ◌==◌, string_eq,
}
use nexusfeed.Prelude.Int.{ℤ, pos, negsuc}
use nexusfeed.Types.{Uuid, Time, ExperimentAssignment}
use nexusfeed.Redis.{Redis, Key, Value, Command, Reply}
use nexusfeed.Redis.Client.{run, send_command, value_of}
use nexusfeed.World.{World, M, Exn, Result, ok, raise, pure, fail, ◌>>=◌, ◌>>◌}
use nexusfeed.Experiments.Bucketing.{Digest, bucket_for, is_in_holdback, assign_variant}
use nexusfeed.Experiments.Repository.{Experiment, Tables, get_by_name, list_active, create}

-- seconds
abbrev pub assignment_ttl : ℕ
assignment_ttl = 604_800

module _ {W : Type 0} (r : Redis W) (sha256 : Digest) where
  module _ (user_id : Uuid) (experiment_name : String) where
    abbrev pub cache_key : Key
    cache_key = Key.experiment_user experiment_name user_id

    abbrev pub assignment : ℤ → String → ExperimentAssignment
    assignment bucket variant = record {
      user_id = user_id;
      experiment_name = experiment_name;
      bucket = bucket;
      variant = variant;
    }

    -- `if cached is not None:`; a text without the colon does not split into two
    abbrev pub use_cached :
        M r.Store ExperimentAssignment → Option (Value W) → M r.Store ExperimentAssignment
    use_cached fresh none = fresh
    use_cached fresh (some (Value.assignment bucket variant)) = pure (assignment bucket variant)
    use_cached fresh (some _) = fail Exn.value_error

    -- the holdback and the cache, before the `fresh` assignment
    unfoldable pub cached_or : M r.Store ExperimentAssignment → M r.Store ExperimentAssignment
    cached_or fresh w =
        if is_in_holdback sha256 user_id
        then (w, ok (assignment (negsuc 0) "holdback"))
        else (do
          reply ← run r (Command.get cache_key)
          cached ← value_of reply
          use_cached fresh cached)
            w

module _ {W : Type 0} (r : Redis W) (sha256 : Digest) (experiments : List Experiment) where
  module _ (user_id : Uuid) (experiment_name : String) where
    -- what follows the lookup of the cache
    unfoldable pub assign : M r.Store ExperimentAssignment
    assign w = elim (get_by_name experiment_name experiments) [
      | none ↦ (w, raise Exn.experiment_not_found)
      | some experiment ↦
          let bucket = bucket_for sha256 user_id experiment_name in
          let variant =
            assign_variant bucket (experiment.control_low, experiment.control_high)
              (experiment.treatment_low, experiment.treatment_high) in
          (do
            send_command r (
                Command.set (cache_key r sha256 user_id experiment_name)
                  (Value.assignment (pos bucket) variant) assignment_ttl)
            pure (assignment r sha256 user_id experiment_name (pos bucket) variant))
            w
    ]

    unfoldable pub get_assignment : M r.Store ExperimentAssignment
    get_assignment = cached_or r sha256 user_id experiment_name assign

-- `experiment.status = "stopped"`, on the first row of the name
unfoldable pub set_stopped : String → Time → List Experiment → List Experiment
set_stopped name now [] = []
set_stopped name now (experiment ∷ experiments) =
    let rest = set_stopped name now experiments in
    if experiment.name == name
    then record experiment { status = "stopped"; ended_at = some now } ∷ experiments
    else experiment ∷ rest

unfoldable pub stop_experiment : String → Time → Tables → Tables × Result (Unit {0})
stop_experiment experiment_name now db = elim (get_by_name experiment_name db.experiments) [
  | none ↦ (db, raise Exn.experiment_not_found)
  | some _ ↦ (record db { experiments = set_stopped experiment_name now db.experiments }, ok tt)
]
