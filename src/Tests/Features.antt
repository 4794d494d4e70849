-- ===== src/Tests/Features.antt =====
-- The online store, the user features and the experiments, on an empty Redis.
use mathlib.Core.List.Perm
use nexusfeed.Prelude.{ℕ, ◌+◌, ◌*◌, ◌≡◌, refl, true, none, some, List, [], ◌∷◌, String, arith}
use nexusfeed.Prelude.Int.{pos}
use nexusfeed.Redis.{second}
use nexusfeed.World.{World, ok}
use nexusfeed.Features.OfflineStore.{get_user_preferred_categories}
use nexusfeed.Features.OnlineStore.RateLimit.{
  serve, answers, InWindow, stop, next, rate_limit_hit-counts,
}
use nexusfeed.Features.UserFeatures.{Numerics, cold_start_embedding, get_embedding}
use nexusfeed.Features.UserFeatures.ColdStart.{get_embedding_cold_start}
use nexusfeed.Types.{ExperimentAssignment, EventType}
use nexusfeed.Experiments.Bucketing.{Digest}
use nexusfeed.Experiments.Repository.{
  get_by_name, Experiment, ExperimentResult, Tables, new_result, find_row,
}
use nexusfeed.Experiments.Manager.{get_assignment, stop_experiment}
use nexusfeed.Experiments.Manager.Assignment.{get_assignment-sticky, get_assignment-stop_experiment}
use nexusfeed.Experiments.Metrics.Counts.{Recorded, Counted, record_all, record_all-Counted}
use nexusfeed.Tests.Packing.{hex}
use nexusfeed.Tests.Store.{Store, memory, memory-Laws, memory-CounterLaws}
use nexusfeed.Tests.Data.{noon, world_at, hundredths_float}

abbrev running : World Store
running = world_at noon true

abbrev later : World Store → World Store
later w = record w { clock = noon + 60 * second }

-- three calls in one second
abbrev times : List ℕ
times = noon ∷ 1_000_000_000_010 ∷ 1_000_000_000_020 ∷ []

in_window : InWindow memory "key" 1 2 1_000_000 noon times
in_window = next (omega arith) refl (next (omega arith) refl (next (omega arith) refl stop))

rate_limit_hit-counts_example :
    serve memory "key" 1 2 times running ≡ answers memory "key" 1 2 0 times
rate_limit_hit-counts_example =
    rate_limit_hit-counts memory "key" 1 2 memory-Laws memory-CounterLaws 1_000_000 running times
      (omega arith) (λ t h. refl) in_window

abbrev numerics : Numerics ℕ
numerics = record {
  sorted = λ xs. [];
  abs_hash = λ xs. 7;
  normal = λ seed n. seed ∷ n ∷ [];
  codec = hex;
}

get_embedding_cold_start_example :
    get_embedding memory numerics
      (λ u. ok (some (record { onboarding_categories = some ("b" ∷ "a" ∷ []) })))
      "u1"
      running
    ≡ (running, ok (cold_start_embedding memory numerics ("a" ∷ "b" ∷ []), true))
unfolding get_user_preferred_categories
get_embedding_cold_start_example =
    get_embedding_cold_start memory "u1" numerics
      (λ u. ok (some (record { onboarding_categories = some ("b" ∷ "a" ∷ []) }))) memory-Laws
      running ("b" ∷ "a" ∷ []) ("a" ∷ "b" ∷ []) (λ xs ys p. refl) refl refl (Perm.swap "a" "b" [])

abbrev sha256 : Digest
sha256 prefix user_id = 5_042

abbrev experiment : Experiment
experiment = record {
  id = "x1";
  name = "ab";
  control_low = pos 0;
  control_high = pos 50;
  treatment_low = pos 50;
  treatment_high = pos 100;
  status = "active";
  ended_at = none;
}

abbrev tables : Tables
tables = record {
  experiments = experiment ∷ [];
  results = new_result "x1" "control" ∷ new_result "x1" "treatment" ∷ [];
}

get_assignment-sticky_example :
    (a : ExperimentAssignment) × ((get_assignment memory sha256
        (experiment ∷ [])
        "u1"
        "ab"
        running).1
      ≡ ok a)
    × (get_assignment memory sha256 [] "u1" "ab"
          (later (get_assignment memory sha256 (experiment ∷ []) "u1" "ab" running).0)
        ≡ (later (get_assignment memory sha256 (experiment ∷ []) "u1" "ab" running).0, ok a))
unfolding get_by_name
get_assignment-sticky_example =
    get_assignment-sticky memory sha256 "u1" "ab" memory-Laws (experiment ∷ []) [] experiment
      running (later (get_assignment memory sha256 (experiment ∷ []) "u1" "ab" running).0) refl refl
      refl (omega arith) (omega arith)

get_assignment-stop_experiment_example :
    get_assignment memory sha256 (stop_experiment "ab" noon tables).0.experiments "u1" "ab" running
    ≡ get_assignment memory sha256 (experiment ∷ []) "u1" "ab" running
get_assignment-stop_experiment_example =
    get_assignment-stop_experiment memory sha256 "u1" "ab" "ab" noon tables running

abbrev recorded : String → EventType → Recorded
recorded variant event_type = record {
  experiment_id = "x1";
  variant = variant;
  event_type = event_type;
  dwell_ms = some (pos 10);
}

abbrev events : List Recorded
events =
    recorded "control" EventType.click
    ∷ recorded "treatment" EventType.click
    ∷ recorded "control" EventType.save
    ∷ []

record_all-Counted_example :
    (after : ExperimentResult) × (find_row "x1" "control" (record_all events tables.results)
      ≡ some after)
    × Counted "x1" "control" events (new_result "x1" "control") after
unfolding find_row
record_all-Counted_example =
    record_all-Counted "x1" "control" events tables.results (new_result "x1" "control") refl
