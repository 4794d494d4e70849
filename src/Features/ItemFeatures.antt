-- ===== src/Features/ItemFeatures.antt =====
-- nexusfeed/features/item_features.py. `math.sqrt` and `math.pow(0.5, x)` are arguments; the time is
-- the clock.
use nexusfeed.Prelude.{
  ℕ, ◌*◌, ◌-◌, Bool, false, none, some, List, map, foldl, String, length, get, if◌then◌else◌, ltb,
  leb, string_eq,
}
use nexusfeed.Float.{Float, zero_score}
use nexusfeed.Types.{Uuid, Time}
use nexusfeed.Redis.{Redis, second}
use nexusfeed.World.{M, pure, ◌>>=◌, ◌>>◌}
use nexusfeed.Features.OnlineStore.{set_item_score, get_trending}

abbrev pub freshness_half_life_hours : ℕ
freshness_half_life_hours = 48

abbrev pub new_item_impression_threshold : ℕ
new_item_impression_threshold = 100

module _ {W : Type 0} ⦃f : Float W⦄ where
  abbrev pub forced_exploration_rate : W
  forced_exploration_rate = f.lit 5 100

  -- the age is at least zero, which subtraction on the numbers sees to
  unfoldable pub compute_freshness_score : (pow_half : W → W) → (created_at now : Time) → W
  compute_freshness_score pow_half created_at now =
      let age_hours = f.lit (now - created_at) (3600 * second) in
      pow_half (f.div age_hours (f.lit freshness_half_life_hours 1))

  -- with `freshness_weight = 0.3`
  unfoldable pub compute_composite_score : (freshness popularity : W) → W
  compute_composite_score freshness popularity =
      f.add (f.mul (f.lit 3 10) freshness) (f.mul (f.sub (f.lit 1 1) (f.lit 3 10)) popularity)

  -- `draw` is what `random.random()` returns
  unfoldable pub is_forced_exploration_candidate : (impression_count : ℕ) (draw : W) → Bool
  is_forced_exploration_candidate impression_count draw =
      if leb new_item_impression_threshold impression_count
      then false
      else f.lt draw forced_exploration_rate

  abbrev pub total : List W → W
  total xs = foldl f.add zero_score xs

  abbrev pub mean_of : List W → W
  mean_of xs = f.div (total xs) (f.lit (length xs) 1)

  abbrev pub variance_of : List W → W
  variance_of xs =
      let mean = mean_of xs in
      f.div (total (map (λ s. f.mul (f.sub s mean) (f.sub s mean)) xs)) (f.lit (length xs) 1)

  -- `math.sqrt(variance) if variance > 0 else 1e-9`
  abbrev pub std_of : (sqrt : W → W) → List W → W
  std_of sqrt xs =
      let variance = variance_of xs in
      if f.lt zero_score variance then sqrt variance else f.lit 1 1_000_000_000

  -- the test on the scores of the trending items
  unfoldable pub is_trending_among :
      (sqrt : W → W) (threshold : W) → Uuid → List (String × W) → Bool
  is_trending_among sqrt threshold item_id trending =
      if ltb (length trending) 5
      then false
      else let scores = map (λ t. t.1) trending in
        elim (get item_id trending) [
          | none ↦ false
          | some item_score ↦
              f.lt threshold (f.div (f.sub item_score (mean_of scores)) (std_of sqrt scores))
        ]

  module _ (r : Redis W) where
    unfoldable pub refresh_item_score :
        (pow_half : W → W) → Uuid → (created_at : Time) (popularity : W) → M r.Store W
    refresh_item_score pow_half item_id created_at popularity w =
        let composite =
          compute_composite_score (compute_freshness_score pow_half created_at w.clock)
            popularity in
        (do set_item_score r item_id composite; pure composite) w

    unfoldable pub get_trending_flag :
        (sqrt : W → W) (z_score_threshold : W) → Uuid → M r.Store Bool
    get_trending_flag sqrt z_score_threshold item_id = do
      trending ← get_trending r 1000
      pure (is_trending_among sqrt z_score_threshold item_id trending)
