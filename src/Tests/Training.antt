-- ===== src/Tests/Training.antt =====
-- Training data, the trainer and the comparison with the baselines.
use mathlib.Core.List.{Mem}
use nexusfeed.Prelude.{
  ℕ, ◌+◌, ◌-◌, ◌*◌, ◌%◌, ◌≤◌, ◌<◌, ◌≡◌, refl, inl, inr, ◌⊎◌, min, none, some, List, [], ◌∷◌, ◌++◌,
  take, length, replicate, arith, elem, get, string_eq, nat_eq, length-take, Mem-take, ◌/◌, nat_beq,
  Bool-cases,
}
use nexusfeed.Models.Trainer.{Torch, Batch, unfitted, fit}
use nexusfeed.Models.Trainer.Stopping.{Trained, fit-Trained}
use nexusfeed.Training.DataLoader.{pad_sequence}
use nexusfeed.Training.DataLoader.Padding.{pad_sequence_lem}
use nexusfeed.Training.NegativeSampling.{
  sample_in_batch_negatives, sample_shown_not_clicked_negatives,
}
use nexusfeed.Training.NegativeSampling.Rows.{Rows, sample_in_batch_negatives_total}
use nexusfeed.Training.NegativeSampling.Shown.{
  SampleLaws, displayed, times, sample_shown_not_clicked_negatives_lem,
}
use nexusfeed.Baselines.Benchmark.{BenchmarkResult, ratio, simulate_variant}
use nexusfeed.Baselines.Benchmark.Rates.{shown_to, simulate_variant_lem}
use nexusfeed.Baselines.Collaborative.{
  CollaborativeFiltering, fit as fit_factors, recommend, collect, id_by_index,
}
use nexusfeed.Tests.Data.{hundredths_float}

-- a model whose loss falls to 1 and stays there
abbrev falling : Torch ℕ ℕ ℕ
falling = record {
  train = λ s. s;
  eval = λ s. s;
  zero_grad = λ s. s;
  encode_user = λ s x. x;
  encode_item = λ s x. x;
  flatten = λ x. x;
  unflatten = λ b x. x;
  sampled_softmax_loss = λ s u p n. s;
  backward = λ loss s. s;
  step = λ s. 1 + (s - 1) / 2;
  item = λ loss. loss;
}

abbrev loader : List (Batch ℕ)
loader = record { user_batch = 1; item_batch = 2; negative_batch = 3 } ∷ []

fit-Trained_example :
    (epochs : ℕ) × Trained falling loader none 20 3
      (unfitted 1_000_000 4)
      (fit falling loader none 1_000_000 20 3 4)
      epochs
fit-Trained_example = fit-Trained falling loader none 1_000_000 20 3 4 (omega arith)

pad_sequence_lem_example :
    (left_out cut : List ℕ) × (zeros : ℕ) × (5 ∷ 6 ∷ 7 ∷ [] ≡ left_out ++ cut)
    × (pad_sequence (5 ∷ 6 ∷ 7 ∷ []) 2 ≡ replicate zeros 0 ++ cut)
    × (zeros + length cut ≡ 2)
    × ((length left_out ≡ 0) ⊎ (zeros ≡ 0))
pad_sequence_lem_example = pad_sequence_lem (5 ∷ 6 ∷ 7 ∷ []) 2 (omega arith)

-- 0, 1, 0, 1, ...
abbrev alternating : ℕ → ℕ
alternating i = i % 2

-- of two calls in a row one gives another item
alternates : (positive i : ℕ) → (d : ℕ) × (d < 2) × (¬ (alternating (i + d) ≡ positive))
alternates positive i = elim (Bool-cases (nat_beq (alternating i) positive)) [
  | inl here ↦ let now : i % 2 ≡ positive = ground arith in (1, omega arith, λ e. omega arith)
  | inr other ↦ let now : ¬ (i % 2 ≡ positive) = ground arith in (0, omega arith, λ e. omega arith)
]

sample_in_batch_negatives_total_example :
    (rows : List (List ℕ)) × (sample_in_batch_negatives alternating 4 8 (0 ∷ 1 ∷ []) ≡ some rows)
    × Rows alternating 4 (0 ∷ 1 ∷ []) rows
sample_in_batch_negatives_total_example =
    sample_in_batch_negatives_total alternating 4 2 alternates 8 (0 ∷ 1 ∷ []) (omega arith)

first_ones : List ℕ → ℕ → List ℕ
first_ones xs k = take k xs

first_ones-SampleLaws : SampleLaws first_ones
unfolding first_ones
first_ones-SampleLaws = record {
  sample_length = λ xs k h. omega (arith, length-take k xs);
  sample_mem = λ xs k x h m. Mem-take k xs m;
}

abbrev impressions : List (ℕ × List ℕ)
impressions = (1, 5 ∷ 6 ∷ []) ∷ (2, 7 ∷ 5 ∷ 8 ∷ []) ∷ []

sample_shown_not_clicked_negatives_lem_example :
    (length (sample_shown_not_clicked_negatives first_ones impressions 5 4)
      ≡ min 4 (length (displayed impressions) - times 5 (displayed impressions)))
    × (¬ Mem 5 (sample_shown_not_clicked_negatives first_ones impressions 5 4))
    × ((x : ℕ)
        → Mem x (sample_shown_not_clicked_negatives first_ones impressions 5 4)
        → Mem x (displayed impressions))
sample_shown_not_clicked_negatives_lem_example =
    sample_shown_not_clicked_negatives_lem first_ones impressions 5 4 first_ones-SampleLaws

abbrev rankings : List (ℕ × List ℕ)
rankings = (0, 3 ∷ 4 ∷ 5 ∷ []) ∷ (1, 4 ∷ []) ∷ []

abbrev affinity : ℕ → ℕ → ℕ
affinity user item = 10 * item

abbrev draw : ℕ → ℕ
draw seed = 150

abbrev same : ℕ → ℕ
same x = x

abbrev diversity_of : List ℕ → ℕ
diversity_of shown = length shown

simulate_variant_lem_example :
    (clicks returning : ℕ) × (new : BenchmarkResult ℕ) × (simulate_variant affinity same draw same
        same diversity_of "random" rankings 2 []
      ≡ [] ++ new ∷ [])
    × (new.ctr ≡ ratio clicks (shown_to 2 rankings))
    × (new.return_rate ≡ ratio returning (length rankings))
    × (clicks ≤ shown_to 2 rankings)
    × (returning ≤ length rankings)
    × (returning ≤ clicks)
simulate_variant_lem_example =
    simulate_variant_lem affinity same draw same same diversity_of "random" rankings 2 []

abbrev svd : ℕ → ℕ → ℕ
svd matrix k = matrix

abbrev argsort : ℕ → ℕ → List ℕ
argsort factors user = 1 ∷ 0 ∷ []

abbrev fitted : CollaborativeFiltering ℕ
fitted =
    fit_factors svd argsort
      (record { num_factors = 32; factors = none; user_index = []; item_index = [] }) 7 ("u" ∷ [])
      ("a" ∷ "b" ∷ [])

recommended : recommend svd argsort fitted "u" 2 ("b" ∷ []) ≡ some ("a" ∷ [])
unfolding recommend fit_factors collect get elem id_by_index
recommended = refl
