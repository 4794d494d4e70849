-- ===== src/Experiments/Significance.antt =====
-- nexusfeed/experiments/significance.py. math and scipy are not code of the repository: `Stats` holds
-- the functions of theirs that are called. A comparison with 0 is read by `<` in both directions.
pub mod Evidence
use nexusfeed.Prelude.{
  ℕ, zero, suc, ◌+◌, Bool, true, false, not, List, [], ◌∷◌, String, nat_beq, if◌then◌else◌,
}
use nexusfeed.Float.{Float, zero_score}
use nexusfeed.Types.{ExperimentMetrics}
use nexusfeed.Experiments.Metrics.{ctr}

pub record Stats (W : Type 0) : Type 0 where
  pub sqrt : W → W
  pub abs : W → W
  pub ceil : W → ℕ
  pub norm_cdf : W → W
  pub norm_ppf : W → W
  -- the p-values, and the statistic of the rank test
  pub chisquare : (observed expected : List W) → W
  pub mannwhitneyu : (control_samples treatment_samples : List W) → W × W

pub record SignificanceResult (W : Type 0) : Type 0 where
  pub metric : String
  pub control_value : W
  pub treatment_value : W
  pub relative_lift : W
  pub p_value : W
  pub is_significant : Bool
  pub sample_ratio_ok : Bool

module _ {W : Type 0} ⦃f : Float W⦄ (stats : Stats W) where
  abbrev pub one : W
  one = f.lit 1 1

  abbrev pub is_zero : W → Bool
  is_zero x = if f.lt x zero_score then false else not (f.lt zero_score x)

  -- the z statistic and the p-value
  unfoldable pub two_proportion_z_test :
      (control_conversions control_total treatment_conversions treatment_total : ℕ) → W × W
  two_proportion_z_test control_conversions control_total treatment_conversions treatment_total =
      if nat_beq control_total 0
      then (zero_score, one)
      else if nat_beq treatment_total 0
      then (zero_score, one)
      else (let p1 = f.div (f.lit control_conversions 1) (f.lit control_total 1) in
          let p2 = f.div (f.lit treatment_conversions 1) (f.lit treatment_total 1) in
          let p_pool =
            f.div (f.lit (control_conversions + treatment_conversions) 1)
              (f.lit (control_total + treatment_total) 1) in
          let se = stats.sqrt (
            f.mul (f.mul p_pool (f.sub one p_pool))
              (f.add (f.div one (f.lit control_total 1)) (f.div one (f.lit treatment_total 1)))) in
          let z = f.div (f.sub p2 p1) se in
          if is_zero se
          then (zero_score, one)
          else (z, f.mul (f.lit 2 1) (f.sub one (stats.norm_cdf (stats.abs z)))))

  unfoldable pub mann_whitney_u_test : (control_samples treatment_samples : List W) → W × W
  mann_whitney_u_test [] treatment_samples = (zero_score, one)
  mann_whitney_u_test (c ∷ control_samples) [] = (zero_score, one)
  mann_whitney_u_test (c ∷ control_samples) (t ∷ treatment_samples) =
      stats.mannwhitneyu (c ∷ control_samples) (t ∷ treatment_samples)

  -- true if there is no mismatch; the source's `tolerance` is used nowhere
  unfoldable pub sample_ratio_mismatch :
      (control_n treatment_n : ℕ) (expected_ratio tolerance : W) → Bool
  sample_ratio_mismatch control_n treatment_n expected_ratio tolerance =
      let total = control_n + treatment_n in
      let expected_control =
        f.mul (f.lit total 1) (f.div expected_ratio (f.add one expected_ratio)) in
      let expected_treatment = f.sub (f.lit total 1) expected_control in
      let p_value =
        stats.chisquare (f.lit control_n 1 ∷ f.lit treatment_n 1 ∷ [])
          (expected_control ∷ expected_treatment ∷ []) in
      if nat_beq total 0 then true else f.lt (f.lit 1 1000) p_value

  unfoldable pub bonferroni_correction : (alpha : W) (num_metrics : ℕ) → W
  bonferroni_correction alpha zero = alpha
  bonferroni_correction alpha (suc n) = f.div alpha (f.lit (suc n) 1)

  unfoldable pub required_sample_size :
      (baseline_rate minimum_detectable_effect power alpha : W) → ℕ
  required_sample_size baseline_rate minimum_detectable_effect power alpha =
      let two = f.lit 2 1 in
      let z_alpha = stats.norm_ppf (f.sub one (f.div alpha two)) in
      let z_beta = stats.norm_ppf power in
      let p1 = baseline_rate in
      let p2 = f.mul baseline_rate (f.add one minimum_detectable_effect) in
      let p_bar = f.div (f.add p1 p2) two in
      let root =
        f.add (f.mul z_alpha (stats.sqrt (f.mul (f.mul two p_bar) (f.sub one p_bar))))
          (f.mul z_beta (stats.sqrt (f.add (f.mul p1 (f.sub one p1)) (f.mul p2 (f.sub one p2))))) in
      let numerator = f.mul root root in
      let gap = f.sub p2 p1 in
      let denominator = f.mul gap gap in
      if f.lt zero_score denominator then stats.ceil (f.div numerator denominator) else 0

  unfoldable pub evaluate_experiment :
      (control treatment : ExperimentMetrics) (expected_ratio : W) (num_metrics_tested : ℕ)
      → SignificanceResult W
  unfolding ctr
  evaluate_experiment control treatment expected_ratio num_metrics_tested =
      let (z, p_value) =
        two_proportion_z_test control.clicks control.impressions treatment.clicks
          treatment.impressions in
      let srm_ok =
        sample_ratio_mismatch control.impressions treatment.impressions expected_ratio
          (f.lit 2 100) in
      let alpha = bonferroni_correction (f.lit 5 100) num_metrics_tested in
      record {
        metric = "ctr";
        control_value = ctr control;
        treatment_value = ctr treatment;
        relative_lift =
            if f.lt zero_score (ctr control)
            then f.div (f.sub (ctr treatment) (ctr control)) (ctr control)
            else zero_score;
        p_value = p_value;
        is_significant = if f.lt p_value alpha then srm_ok else false;
        sample_ratio_ok = srm_ok;
      }
