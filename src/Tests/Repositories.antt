-- ===== src/Tests/Repositories.antt =====
-- Rows of users and of interactions, and the evaluation of an experiment.
use mathlib.Core.List.{Nodup-cons, Nodup-nil, not-mem-nil}
use nexusfeed.Prelude.{
  arith, ℕ, ◌+◌, ◌≤◌, ◌≡◌, refl, true, false, none, some, List, [], ◌∷◌, String, get, string_eq,
  nat_beq, ◌==◌, if◌then◌else◌,
}
use nexusfeed.Prelude.Int.{pos}
use nexusfeed.World.{Interaction}
use nexusfeed.Types.{Uuid, ExperimentMetrics}
use nexusfeed.Repositories.Users.{User, get_user, update_metadata, or_else, update_metadata_lem}
use nexusfeed.Repositories.Interactions.{click_through_rate}
use nexusfeed.Repositories.Interactions.Rate.{count_rows, click_through_rate_lem}
use nexusfeed.Experiments.Metrics.{ctr}
use nexusfeed.Experiments.Significance.{
  Stats, SignificanceResult, evaluate_experiment, two_proportion_z_test, sample_ratio_mismatch,
  bonferroni_correction,
}
use nexusfeed.Experiments.Significance.Evidence.{IsSound, evaluate_experiment-IsSound}
use nexusfeed.Tests.Data.{hundredths_float}

abbrev reader : User ℕ
reader = record { id = "u1"; created_at = 5; metadata = ("age", 30) ∷ ("tier", 1) ∷ [] }

abbrev users : List (User ℕ)
users = record { id = "u0"; created_at = 4; metadata = [] } ∷ reader ∷ []

abbrev given : List (String × ℕ)
given = ("tier", 2) ∷ []

there : get_user "u1" users ≡ some reader
unfolding get_user
there = refl

update_metadata_lem_example :
    (changed : User ℕ) × ((update_metadata "u1" given users).1 ≡ some changed)
    × (changed.id ≡ "u1")
    × (changed.created_at ≡ 5)
    × ((k : String) → get k changed.metadata ≡ or_else (get k given) (get k reader.metadata))
    × ((j : Uuid)
        → get_user j (update_metadata "u1" given users).0
          ≡ (if "u1" == j then some changed else get_user j users))
update_metadata_lem_example =
    update_metadata_lem "u1" given users reader there (Nodup-cons.1 (not-mem-nil, Nodup-nil))

abbrev interaction : String → Interaction
interaction event_type = record {
  user_id = "u1";
  item_id = "i1";
  event_type = event_type;
  dwell_ms = none;
  session_id = none;
}

abbrev rows : List Interaction
rows = interaction "click" ∷ interaction "view_full" ∷ interaction "share" ∷ []

click_through_rate_lem_example :
    (clicks impressions : ℕ) × (clicks ≡ count_rows "i1" "click" rows)
    × (impressions
        ≡ count_rows "i1" "view_full" rows
          + count_rows "i1" "view_scroll_past" rows
          + count_rows "i1" "click" rows)
    × (clicks ≤ impressions)
    × (click_through_rate "i1" rows ≡ (
        if nat_beq impressions 0
        then 0
        else hundredths_float.div
            (hundredths_float.lit clicks 1)
            (hundredths_float.lit impressions 1)))
click_through_rate_lem_example = click_through_rate_lem "i1" rows

-- p-values of 0.00 for the difference and 0.50 for the split
abbrev stats : Stats ℕ
stats = record {
  sqrt = λ x. 10;
  abs = λ x. x;
  ceil = λ x. x;
  norm_cdf = λ x. 100;
  norm_ppf = λ x. x;
  chisquare = λ xs ys. 50;
  mannwhitneyu = λ xs ys. (0, 0);
}

abbrev metrics : String → ℕ → ExperimentMetrics
metrics variant clicks = record {
  experiment_name = "e";
  variant = variant;
  impressions = 100;
  clicks = clicks;
  shares = 0;
  dwell_ms_total = pos 0;
  returns = 0;
}

abbrev result : SignificanceResult ℕ
result = record {
  metric = "ctr";
  control_value = 10;
  treatment_value = 30;
  relative_lift = 200;
  p_value = 0;
  is_significant = true;
  sample_ratio_ok = true;
}

bound :
    hundredths_float.lt
      (hundredths_float.lit 1 1)
      (hundredths_float.div (hundredths_float.lit 5 100) (hundredths_float.lit 1 1))
    ≡ false
bound = refl

evaluated : evaluate_experiment stats (metrics "control" 10) (metrics "treatment" 30) 100 1 ≡ result
unfolding evaluate_experiment two_proportion_z_test sample_ratio_mismatch bonferroni_correction ctr
evaluated = refl

evaluate_experiment-IsSound_example :
    IsSound stats (metrics "control" 10) (metrics "treatment" 30) 100 1 result
evaluate_experiment-IsSound_example =
    evaluate_experiment-IsSound stats (metrics "control" 10) (metrics "treatment" 30) 100 1 result
      (omega arith) bound evaluated refl
