-- ===== src/Experiments/Significance/Evidence.antt =====
-- What a significant result rests on.
use nexusfeed.Prelude.{ℕ, zero, suc, ◌+◌, ◌<◌, ◌≡◌, refl, sym, subst, true, false, [], ◌∷◌, arith}
use nexusfeed.Float.{Float}
use nexusfeed.Types.{ExperimentMetrics}
use nexusfeed.Experiments.Significance.{
  Stats, SignificanceResult, is_zero, two_proportion_z_test, sample_ratio_mismatch,
  bonferroni_correction, evaluate_experiment,
}

module _ {W : Type 0} ⦃f : Float W⦄ (stats : Stats W) where
  abbrev unit : W
  unit = f.lit 1 1

  abbrev pub rate : (clicks impressions : ℕ) → W
  rate clicks impressions = f.div (f.lit clicks 1) (f.lit impressions 1)

  -- the standard error of the difference of two rates, under one rate for both
  abbrev pub pooled_error : (control treatment : ExperimentMetrics) → W
  pooled_error control treatment =
      let p =
        rate (control.clicks + treatment.clicks) (control.impressions + treatment.impressions) in
      stats.sqrt (
        f.mul (f.mul p (f.sub unit p)) (
          f.add (f.div unit (f.lit control.impressions 1))
            (f.div unit (f.lit treatment.impressions 1))))

  -- the two-sided p-value of the difference of the rates
  abbrev pub two_sided : (control treatment : ExperimentMetrics) → W
  two_sided control treatment =
      let difference =
        f.sub (rate treatment.clicks treatment.impressions)
          (rate control.clicks control.impressions) in
      f.mul (f.lit 2 1) (
        f.sub unit (stats.norm_cdf (stats.abs (f.div difference (pooled_error control treatment)))))

  -- the p-value of the chi-square test of the impressions against the expected ratio
  abbrev pub split_p_value : (control treatment : ExperimentMetrics) (expected_ratio : W) → W
  split_p_value control treatment expected_ratio =
      let total = f.lit (control.impressions + treatment.impressions) 1 in
      let share = f.mul total (f.div expected_ratio (f.add unit expected_ratio)) in
      stats.chisquare (f.lit control.impressions 1 ∷ f.lit treatment.impressions 1 ∷ [])
        (share ∷ f.sub total share ∷ [])

  -- What a significant result rests on: both variants were shown, their rates have a standard error
  -- above zero or below it, the p-value is the two-sided one of their difference and is below 0.05
  -- over the number of metrics, and the p-value of the split is above 0.001.
  pub record IsSound (control treatment : ExperimentMetrics) (expected_ratio : W)
      (num_metrics_tested : ℕ) (result : SignificanceResult W) : Type 0 where
    pub control_shown : 0 < control.impressions
    pub treatment_shown : 0 < treatment.impressions
    pub error : is_zero stats (pooled_error control treatment) ≡ false
    pub p_value : result.p_value ≡ two_sided control treatment
    pub below :
        f.lt (two_sided control treatment) (f.div (f.lit 5 100) (f.lit num_metrics_tested 1)) ≡ true
    pub split : f.lt (f.lit 1 1000) (split_p_value control treatment expected_ratio) ≡ true

  corrected :
      (num : ℕ)
      → 0 < num
      → bonferroni_correction stats (f.lit 5 100) num ≡ f.div (f.lit 5 100) (f.lit num 1)
  unfolding bonferroni_correction
  corrected zero h = absurd (omega arith)
  corrected (suc num) h = refl

  evaluated-IsSound :
      (control treatment : ExperimentMetrics) (expected_ratio : W) (num : ℕ)
      → 0 < num
      → f.lt unit (f.div (f.lit 5 100) (f.lit num 1)) ≡ false
      → (evaluate_experiment stats control treatment expected_ratio num).is_significant ≡ true
      → IsSound control treatment expected_ratio num
          (evaluate_experiment stats control treatment expected_ratio num)
  unfolding evaluate_experiment two_proportion_z_test sample_ratio_mismatch
  evaluated-IsSound control treatment ratio num some_metric bound h =
      let alpha = corrected num some_metric in ground arith

  -- A result that `evaluate_experiment` calls significant, for one metric at least and where 0.05
  -- over the number of metrics is not above 1, is sound: neither variant is without impressions; the
  -- p-value is that of the two-sided z test with the pooled standard error, and is below 0.05 over
  -- the number of metrics; and the chi-square test of the impressions against the expected ratio has
  -- a p-value above 0.001.
  pub evaluate_experiment-IsSound :
      (control treatment : ExperimentMetrics) (expected_ratio : W) (num_metrics_tested : ℕ)
      (result : SignificanceResult W)
      → 0 < num_metrics_tested
      → f.lt (f.lit 1 1) (f.div (f.lit 5 100) (f.lit num_metrics_tested 1)) ≡ false
      → evaluate_experiment stats control treatment expected_ratio num_metrics_tested ≡ result
      → result.is_significant ≡ true
      → IsSound control treatment expected_ratio num_metrics_tested result
  evaluate_experiment-IsSound control treatment ratio num result some_metric bound made h =
      subst (IsSound control treatment ratio num) made (
        evaluated-IsSound control treatment ratio num some_metric bound
          (subst (λ (r : SignificanceResult W). r.is_significant ≡ true) (sym made) h))
