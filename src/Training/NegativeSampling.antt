-- ===== src/Training/NegativeSampling.antt =====
-- training/negative_sampling.py. Python's random is not code of the repository: `randint i` is what
-- the i-th call of `random.randint(0, num_items - 1)` returns, and `sample` is `random.sample`.
pub mod Rows
pub mod Shown
use nexusfeed.Prelude.{
  ℕ, zero, suc, ◌+◌, true, false, Option, none, some, List, [], ◌∷◌, ◌++◌, not, ltb, leb, nat_beq,
  length, filter, if◌then◌else◌,
}
use nexusfeed.Prelude.Partial.{◌>>=◌}

abbrev pub negative_ratio : ℕ
negative_ratio = 4

-- The inner loop for one row, from call `i` on, and the number of the next call; `none` if it is
-- still running after `fuel` rounds.
unfoldable pub choose :
    (randint : ℕ → ℕ) (positive ratio fuel i : ℕ) (chosen : List ℕ) → Option (List ℕ × ℕ)
choose randint positive ratio zero i chosen =
    if ltb (length chosen) ratio then none else some (chosen, i)
choose randint positive ratio (suc fuel) i chosen = elim (ltb (length chosen) ratio) [
  | true ↦
      choose randint positive ratio fuel (i + 1)
        (if nat_beq (randint i) positive then chosen else chosen ++ randint i ∷ [])
  | false ↦ some (chosen, i)
]

-- the loop over the rows
unfoldable pub choose_rows :
    (randint : ℕ → ℕ) (ratio fuel i : ℕ) (positive_item_indices : List ℕ) → Option (List (List ℕ))
choose_rows randint ratio fuel i [] = some []
choose_rows randint ratio fuel i (positive ∷ positives) = do
  (chosen, j) ← choose randint positive ratio fuel i []
  rest ← choose_rows randint ratio fuel j positives
  some (chosen ∷ rest)

unfoldable pub sample_in_batch_negatives :
    (randint : ℕ → ℕ) (ratio fuel : ℕ) (positive_item_indices : List ℕ) → Option (List (List ℕ))
sample_in_batch_negatives randint ratio fuel positive_item_indices =
    choose_rows randint ratio fuel 0 positive_item_indices

-- the comprehension over the impressions and the items shown in each
unfoldable pub shown_not_clicked : List (ℕ × List ℕ) → (clicked_item : ℕ) → List ℕ
shown_not_clicked [] clicked_item = []
shown_not_clicked ((_, shown_items) ∷ impressions) clicked_item =
    filter (λ item. not (nat_beq item clicked_item)) shown_items
    ++ shown_not_clicked impressions clicked_item

unfoldable pub sample_shown_not_clicked_negatives :
    (sample : List ℕ → ℕ → List ℕ) (impressions : List (ℕ × List ℕ)) (clicked_item ratio : ℕ)
    → List ℕ
sample_shown_not_clicked_negatives sample impressions clicked_item ratio =
    let shown = shown_not_clicked impressions clicked_item in
    if leb ratio (length shown) then sample shown ratio else shown
