-- ===== src/Baselines/Benchmark/Rates.antt =====
-- The counts behind the rates of a simulated variant.
use nexusfeed.Prelude.{
  ℕ, ◌+◌, ◌≤◌, ◌≡◌, refl, ap, ◌∙◌, Bool, true, false, List, [], ◌∷◌, ◌++◌, String, min, take,
  length, length-take, arith,
}
use nexusfeed.Float.{Float}
use nexusfeed.Baselines.Benchmark.{
  BenchmarkResult, Simulation, fresh, ratio, evaluate, show_item, show_items, run_session,
  run_sessions, simulate_variant,
}

-- how many items are shown to the users
abbrev pub shown_to : (n_shown : ℕ) → List (ℕ × List ℕ) → ℕ
shown_to n_shown [] = 0
shown_to n_shown ((user_idx, item_indices) ∷ users) =
    min n_shown (length item_indices) + shown_to n_shown users

module _ {W : Type 0} ⦃f : Float W⦄ {E : Type 0} (affinity : (user item : ℕ) → W) (sigmoid : W → W)
    (random : ℕ → W) (int : W → ℕ) (embedding : ℕ → E) where
  abbrev item_shown : ℕ → ℕ → Simulation E × Bool → Simulation E × Bool
  item_shown = show_item affinity sigmoid random int embedding

  abbrev one_if : Bool → ℕ
  one_if true = 1
  one_if false = 0

  -- How the counts grow over `items` items of a session.
  record Grown (before after : Simulation E × Bool) (items : ℕ) : Type 0 where
    clicks : after.0.clicks ≤ before.0.clicks + items
    impressions : after.0.impressions ≡ before.0.impressions
    returning : after.0.returning_users ≡ before.0.returning_users
    flag : one_if after.1 + before.0.clicks ≤ one_if before.1 + after.0.clicks

  show_item-Grown :
      (user item : ℕ) (state : Simulation E × Bool) → Grown state (item_shown user item state) 1
  unfolding show_item
  show_item-Grown user item (s, true) = ground arith
  show_item-Grown user item (s, false) = ground arith

  show_items-Grown :
      (user : ℕ) (items : List ℕ) (state : Simulation E × Bool)
      → Grown state
          (show_items affinity sigmoid random int embedding user items state)
          (length items)
  unfolding show_items
  show_items-Grown user [] state = record {
    clicks = omega arith;
    impressions = refl;
    returning = refl;
    flag = omega arith;
  }
  show_items-Grown user (item ∷ items) state =
      let first = show_item-Grown user item state in
      let rest = show_items-Grown user items (item_shown user item state) in
      record {
        clicks = omega (arith, first.clicks, rest.clicks);
        impressions = rest.impressions ∙ first.impressions;
        returning = rest.returning ∙ first.returning;
        flag = omega (arith, first.flag, rest.flag);
      }

  -- How the counts grow over the sessions of `users` users, who are shown `shown` items.
  record Counted (before after : Simulation E) (users shown : ℕ) : Type 0 where
    clicks : after.clicks ≤ before.clicks + shown
    impressions : after.impressions ≡ before.impressions + shown
    returning : after.returning_users ≤ before.returning_users + users
    clicking : after.returning_users + before.clicks ≤ before.returning_users + after.clicks

  run_session-Counted :
      (n_shown user : ℕ) (items : List ℕ) (s : Simulation E)
      → Counted s
          (run_session affinity sigmoid random int embedding n_shown (user, items) s)
          1
          (min n_shown (length items))
  unfolding run_session
  run_session-Counted n_shown user items s =
      let grown =
        show_items-Grown user (take n_shown items)
          (record s { impressions = s.impressions + length (take n_shown items) }, false) in
      let size = length-take n_shown items in
      let c = grown.clicks in
      let i = grown.impressions in let r = grown.returning in let b = grown.flag in ground arith

  run_sessions-Counted :
      (n_shown : ℕ) (users : List (ℕ × List ℕ)) (s : Simulation E)
      → Counted s
          (run_sessions affinity sigmoid random int embedding n_shown users s)
          (length users)
          (shown_to n_shown users)
  unfolding run_sessions
  run_sessions-Counted n_shown [] s = record {
    clicks = omega arith;
    impressions = omega arith;
    returning = omega arith;
    clicking = omega arith;
  }
  run_sessions-Counted n_shown ((user, items) ∷ users) s =
      let first = run_session-Counted n_shown user items s in
      let rest =
        run_sessions-Counted n_shown users
          (run_session affinity sigmoid random int embedding n_shown (user, items) s) in
      record {
        clicks = omega (arith, first.clicks, rest.clicks);
        impressions = omega (arith, first.impressions, rest.impressions);
        returning = omega (arith, first.returning, rest.returning);
        clicking = omega (arith, first.clicking, rest.clicking);
      }

  -- The simulation appends one result. Its rates are fractions of counts that fit together: there is
  -- one impression for each item shown, no more clicks than impressions, and no more returning users
  -- than users or than clicks.
  pub simulate_variant_lem :
      (diversity : List E → W) (approach_name : String) (users : List (ℕ × List ℕ)) (n_shown : ℕ)
      (results : List (BenchmarkResult W))
      → (clicks returning : ℕ) × (new : BenchmarkResult W) × (simulate_variant affinity sigmoid
            random int embedding diversity approach_name users n_shown results
          ≡ results ++ new ∷ [])
        × (new.ctr ≡ ratio clicks (shown_to n_shown users))
        × (new.return_rate ≡ ratio returning (length users))
        × (clicks ≤ shown_to n_shown users)
        × (returning ≤ length users)
        × (returning ≤ clicks)
  unfolding simulate_variant evaluate
  simulate_variant_lem diversity approach_name users n_shown results =
      let counted = run_sessions-Counted n_shown users fresh in
      let s = run_sessions affinity sigmoid random int embedding n_shown users fresh in
      let all : s.impressions ≡ shown_to n_shown users = omega (arith, counted.impressions) in
      (
        s.clicks,
        s.returning_users,
        _,
        refl,
        ap (ratio s.clicks) all,
        refl,
        omega (arith, counted.clicks),
        omega (arith, counted.returning),
        omega (arith, counted.clicking),
      )
