-- ===== src/Baselines/Benchmark.antt =====
-- nexusfeed/baselines/benchmark_runner.py and the simulation of scripts/run_benchmark.py. The
-- vectors' affinity, the sigmoid, `default_rng(seed).random()` and `int` are arguments; the printing
-- of the report is left out.
pub mod Rates
use nexusfeed.Prelude.{
  ℕ, zero, suc, ◌+◌, Bool, true, false, Option, none, some, List, [], ◌∷◌, ◌++◌, map, String, take,
  length, nat_beq, ◌==◌, string_eq, if◌then◌else◌,
}
use nexusfeed.Float.{Float, zero_score}

pub record BenchmarkResult (W : Type 0) : Type 0 where
  pub approach_name : String
  pub ctr : W
  pub avg_dwell_ms : W
  pub return_rate : W
  pub diversity_score : W

-- the local variables of `simulate_variant`, with the vectors of the items that were shown
pub record Simulation (E : Type 0) : Type 0 where
  pub clicks : ℕ
  pub impressions : ℕ
  pub total_dwell_ms : ℕ
  pub returning_users : ℕ
  pub shown_embeddings : List E

abbrev pub fresh : {E : Type 0} → Simulation E
fresh = record {
  clicks = 0;
  impressions = 0;
  total_dwell_ms = 0;
  returning_users = 0;
  shown_embeddings = [];
}

-- what a table shows of the lifts of "two_tower"
module _ {W : Type 0} ⦃f : Float W⦄ where
  -- `infinity` is `float("inf")`
  unfoldable pub ctr_lift_vs : (infinity : W) (self other : BenchmarkResult W) → W
  ctr_lift_vs infinity self other =
      if f.lt zero_score other.ctr then f.div (f.sub self.ctr other.ctr) other.ctr else infinity

  abbrev pub ratio : (part whole : ℕ) → W
  ratio part zero = zero_score
  ratio part (suc n) = f.div (f.lit part 1) (f.lit (suc n) 1)

  unfoldable pub evaluate :
      {E : Type 0}
      → (diversity : List E → W) (approach_name : String)
        (clicks impressions total_dwell_ms returning_users total_users : ℕ)
        (item_embeddings_shown : List E)
      → List (BenchmarkResult W)
      → List (BenchmarkResult W)
  evaluate diversity approach_name clicks impressions total_dwell_ms returning_users total_users
        item_embeddings_shown results =
      results
      ++ record {
        approach_name = approach_name;
        ctr = ratio clicks impressions;
        avg_dwell_ms = ratio total_dwell_ms impressions;
        return_rate = ratio returning_users total_users;
        diversity_score = diversity item_embeddings_shown;
      }
        ∷ []

  unfoldable pub find_result : String → List (BenchmarkResult W) → Option (BenchmarkResult W)
  find_result approach_name [] = none
  find_result approach_name (r ∷ results) =
      if r.approach_name == approach_name then some r else find_result approach_name results

  -- the lifts that the report lists, one for each other approach
  unfoldable pub lifts :
      (infinity : W) (two_tower : BenchmarkResult W) → List (BenchmarkResult W) → List (String × W)
  lifts infinity two_tower [] = []
  lifts infinity two_tower (r ∷ results) =
      let rest = lifts infinity two_tower results in
      if r.approach_name == "two_tower"
      then rest
      else (r.approach_name, ctr_lift_vs infinity two_tower r) ∷ rest

  module _ {E : Type 0} (affinity : (user item : ℕ) → W) (sigmoid : W → W) (random : ℕ → W)
      (int : W → ℕ) (embedding : ℕ → E) where
    -- the probability of a click
    abbrev pub click_prob : (user item : ℕ) → W
    click_prob user_idx item_idx = sigmoid (f.mul (affinity user_idx item_idx) (f.lit 4 1))

    abbrev pub is_clicked : (user item : ℕ) → Bool
    is_clicked user_idx item_idx =
        f.lt (random (item_idx + user_idx)) (click_prob user_idx item_idx)

    -- one item of a user's session, and whether the session has had a click
    unfoldable pub show_item : (user item : ℕ) → Simulation E × Bool → Simulation E × Bool
    show_item user_idx item_idx (s, session_had_click) =
        let seen = record s { shown_embeddings = s.shown_embeddings ++ embedding item_idx ∷ [] } in
        if is_clicked user_idx item_idx
        then (
          record seen {
            clicks = s.clicks + 1;
            total_dwell_ms =
                s.total_dwell_ms
                + int
                    (f.add (f.lit 2000 1) (f.mul (click_prob user_idx item_idx) (f.lit 20_000 1)));
          },
          true,
        )
        else (seen, session_had_click)

    unfoldable pub show_items : (user : ℕ) → List ℕ → Simulation E × Bool → Simulation E × Bool
    show_items user_idx [] state = state
    show_items user_idx (item_idx ∷ items) state =
        show_items user_idx items (show_item user_idx item_idx state)

    -- the session of one user
    unfoldable pub run_session : (n_shown : ℕ) → ℕ × List ℕ → Simulation E → Simulation E
    run_session n_shown (user_idx, item_indices) s =
        let shown = take n_shown item_indices in
        let (after, had_click) =
          show_items user_idx shown
            (record s { impressions = s.impressions + length shown }, false) in
        if had_click then record after { returning_users = after.returning_users + 1 } else after

    unfoldable pub run_sessions : (n_shown : ℕ) → List (ℕ × List ℕ) → Simulation E → Simulation E
    run_sessions n_shown [] s = s
    run_sessions n_shown (user ∷ users) s = run_sessions n_shown users (run_session n_shown user s)

    unfoldable pub simulate_variant :
        (diversity : List E → W) (approach_name : String)
        (ranked_item_indices_per_user : List (ℕ × List ℕ)) (n_shown : ℕ)
        → List (BenchmarkResult W)
        → List (BenchmarkResult W)
    unfolding evaluate run_sessions
    simulate_variant diversity approach_name users n_shown results =
        let s = run_sessions n_shown users fresh in
        evaluate diversity approach_name s.clicks s.impressions s.total_dwell_ms s.returning_users
          (length users) (take 500 s.shown_embeddings) results
