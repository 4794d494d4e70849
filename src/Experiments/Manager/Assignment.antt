-- ===== src/Experiments/Manager/Assignment.antt =====
-- Which variant a user gets, and for how long.
use mathlib.Core.Path.{fun_ext}
use nexusfeed.Prelude.{
  ℕ, ◌+◌, ◌*◌, ◌≤◌, ◌<◌, ◌≡◌, refl, ap, ◌∙◌, inl, inr, true, false, Option, none, some, List, [],
  ◌∷◌, String, ◌==◌, string_eq, arith, Bool-cases, Option-cases,
}
use nexusfeed.Prelude.Int.{ℤ, pos, negsuc}
use nexusfeed.Types.{Uuid, Time, ExperimentAssignment}
use nexusfeed.Redis.{Redis, Laws, Key, Value, Command, Reply, second}
use nexusfeed.World.{World, Exn, Result, ok, raise}
use nexusfeed.Experiments.Bucketing.{Digest, bucket_for, is_in_holdback, assign_variant}
use nexusfeed.Experiments.Repository.{Experiment, Tables, get_by_name}
use nexusfeed.Experiments.Manager.{
  assignment_ttl, cached_or, assign, get_assignment, set_stopped, stop_experiment,
}

-- two lookups of an experiment that agree up to its status and its end
data SameRanges : Option Experiment → Option Experiment → Type 0 where
  both_missing : {a b : Option Experiment} → a ≡ none → b ≡ none → SameRanges a b
  both_found :
      {a b : Option Experiment} (x y : Experiment)
      → a ≡ some x
      → b ≡ some y
      → x.control_low ≡ y.control_low
      → x.control_high ≡ y.control_high
      → x.treatment_low ≡ y.treatment_low
      → x.treatment_high ≡ y.treatment_high
      → SameRanges a b

same_lookup : (o : Option Experiment) → SameRanges o o
same_lookup none = both_missing refl refl
same_lookup (some x) = both_found x x refl refl refl refl refl refl

get_by_name-set_stopped :
    (other name : String) (now : Time) (experiments : List Experiment)
    → SameRanges
        (get_by_name other (set_stopped name now experiments))
        (get_by_name other experiments)
unfolding get_by_name set_stopped
get_by_name-set_stopped other name now [] = both_missing refl refl
get_by_name-set_stopped other name now (x ∷ experiments) =
    let rest = get_by_name-set_stopped other name now experiments in
    elim (Bool-cases (x.name == name)) [
      | inl stopped ↦ elim (Bool-cases (x.name == other)) [
        | inl here ↦
            rw (stopped, here)
              (both_found (record x { status = "stopped"; ended_at = some now }) x refl refl refl
                refl refl refl)
        | inr there ↦ rw (stopped, there) (same_lookup (get_by_name other experiments))
      ]
      | inr kept ↦ elim (Bool-cases (x.name == other)) [
        | inl here ↦ rw (kept, here) (both_found x x refl refl refl refl refl refl)
        | inr there ↦ rw (kept, there) rest
      ]
    ]

stop_experiment-SameRanges :
    (other name : String) (now : Time) (db : Tables)
    → SameRanges
        (get_by_name other (stop_experiment name now db).0.experiments)
        (get_by_name other db.experiments)
unfolding stop_experiment
stop_experiment-SameRanges other name now db =
    elim (Option-cases (get_by_name name db.experiments)) [
      | inl missing ↦ rw (stop_experiment, missing) (same_lookup (get_by_name other db.experiments))
      | inr (x, found) ↦
          rw (stop_experiment, found) (get_by_name-set_stopped other name now db.experiments)
    ]

module _ {W : Type 0} (r : Redis W) (sha256 : Digest) (user_id : Uuid)
    (experiment_name : String) where
  abbrev asked : List Experiment → World r.Store → World r.Store × Result ExperimentAssignment
  asked experiments = get_assignment r sha256 experiments user_id experiment_name

  abbrev given : ℤ → String → ExperimentAssignment
  given bucket variant = record {
    user_id = user_id;
    experiment_name = experiment_name;
    bucket = bucket;
    variant = variant;
  }

  abbrev key : Key
  key = Key.experiment_user experiment_name user_id

  abbrev bucket : ℕ
  bucket = bucket_for sha256 user_id experiment_name

  -- the variant by the ranges of the experiment
  abbrev variant_of : Experiment → String
  variant_of experiment =
      assign_variant bucket (experiment.control_low, experiment.control_high)
        (experiment.treatment_low, experiment.treatment_high)

  abbrev cached : World r.Store → String → World r.Store
  cached w variant = record w {
    redis =
        (r.exec w.clock w.redis
          (Command.set key (Value.assignment (pos bucket) variant) assignment_ttl)).0;
  }

  -- a user in the holdback gets the variant "holdback", and Redis is not asked
  holdback :
      (experiments : List Experiment) (w : World r.Store)
      → is_in_holdback sha256 user_id ≡ true
      → asked experiments w ≡ (w, ok (given (negsuc 0) "holdback"))
  unfolding get_assignment cached_or
  holdback experiments w h = ground arith

  from_cache :
      (experiments : List Experiment) (w : World r.Store) (b : ℤ) (variant : String)
      → is_in_holdback sha256 user_id ≡ false
      → r.exec w.clock w.redis (Command.get key)
        ≡ (w.redis, Reply.value (Value.assignment b variant))
      → asked experiments w ≡ (w, ok (given b variant))
  unfolding get_assignment cached_or
  from_cache experiments w b variant h found = ground arith

  computed :
      (experiments : List Experiment) (w : World r.Store) (experiment : Experiment)
      → is_in_holdback sha256 user_id ≡ false
      → r.exec w.clock w.redis (Command.get key) ≡ (w.redis, Reply.nil)
      → get_by_name experiment_name experiments ≡ some experiment
      → asked experiments w
        ≡ (cached w (variant_of experiment), ok (given (pos bucket) (variant_of experiment)))
  unfolding get_assignment cached_or assign
  computed experiments w experiment h missing found = ground arith

  unknown :
      (experiments : List Experiment) (w : World r.Store)
      → is_in_holdback sha256 user_id ≡ false
      → r.exec w.clock w.redis (Command.get key) ≡ (w.redis, Reply.nil)
      → get_by_name experiment_name experiments ≡ none
      → asked experiments w ≡ (w, raise Exn.experiment_not_found)
  unfolding get_assignment cached_or assign
  unknown experiments w h missing none_found = ground arith

  module _ (laws : Laws r) where
    -- The assignment of a user to an experiment that exists is sticky. When the user asks again
    -- within a week, to a Redis that is as the first call left it, the answer is the same,
    -- whatever has happened to the experiments in between.
    pub get_assignment-sticky :
        (experiments others : List Experiment) (experiment : Experiment) (w w' : World r.Store)
        → get_by_name experiment_name experiments ≡ some experiment
        → laws.live w.redis w.clock key ≡ none
        → w'.redis ≡ (asked experiments w).0.redis
        → w.clock ≤ w'.clock
        → w'.clock < w.clock + assignment_ttl * second
        → (a : ExperimentAssignment) × ((asked experiments w).1 ≡ ok a)
          × (asked others w' ≡ (w', ok a))
    get_assignment-sticky experiments others experiment w w' found missing same after within =
        elim (Bool-cases (is_in_holdback sha256 user_id)) [
          | inl held ↦ (
            given (negsuc 0) "holdback",
            ap (λ x. x.1) (holdback experiments w held),
            holdback others w' held,
          )
          | inr free ↦
              let first =
                computed experiments w experiment free
                  (laws.get_missing w.clock w.redis key missing) found in
              let kept : laws.live w'.redis w'.clock key
                  ≡ some (Value.assignment (pos bucket) (variant_of experiment)) =
                rw (same ∙ ap (λ x. x.0.redis) first) (
                  laws.set_live w.clock w'.clock w.redis key
                    (Value.assignment (pos bucket) (variant_of experiment)) assignment_ttl after
                    within) in
              (
                given (pos bucket) (variant_of experiment),
                ap (λ x. x.1) first,
                from_cache others w' (pos bucket) (variant_of experiment) free (
                    laws.get_found w'.clock w'.redis key
                      (Value.assignment (pos bucket) (variant_of experiment)) kept),
              )
        ]

  assign_same :
      (experiments others : List Experiment) (w : World r.Store)
      → SameRanges (get_by_name experiment_name experiments) (get_by_name experiment_name others)
      → assign r sha256 experiments user_id experiment_name w
        ≡ assign r sha256 others user_id experiment_name w
  unfolding assign
  assign_same experiments others w (both_missing a b) = ground arith
  assign_same experiments others w (both_found x y a b p q u v) = rw (assign, a, b, p, q, u, v) refl

  -- Stopping an experiment, this one or another, changes no assignment: every user gets the variant
  -- that the ranges of the experiment give, or the error, as before, and the same is cached.
  pub get_assignment-stop_experiment :
      (name : String) (now : Time) (db : Tables) (w : World r.Store)
      → asked (stop_experiment name now db).0.experiments w ≡ asked db.experiments w
  unfolding get_assignment
  get_assignment-stop_experiment name now db w =
      ap (λ fresh. cached_or r sha256 user_id experiment_name fresh w)
        (fun_ext (λ v.
          assign_same _ db.experiments v (stop_experiment-SameRanges experiment_name name now db)))
