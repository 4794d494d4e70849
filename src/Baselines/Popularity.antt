-- ===== src/Baselines/Popularity.antt =====
-- nexusfeed/baselines/popularity_baseline.py and random_baseline.py. `sample` is `random.sample`.
use mathlib.Core.List.{Perm}
use nexusfeed.Prelude.{
  ℕ, ◌≡◌, sym, ap, ◌∙◌, min, List, ◌++◌, map, String, take, drop, length, length-take, map-take,
  take-append-drop,
}
use nexusfeed.Float.{counts, counts-IsOrdered}
use nexusfeed.Sorting.{
  sort_desc, sort_desc-perm, sort_desc-IsDescending, length-sort_desc, IsDescending,
}

abbrev pub count_of : String × ℕ → ℕ
count_of (item, count) = count

-- `Counter(interaction_counts).most_common()`
unfoldable pub most_common : List (String × ℕ) → List (String × ℕ)
unfolding sort_desc
most_common interaction_counts = sort_desc ⦃f = counts⦄ count_of interaction_counts

-- `PopularityBaseline(interaction_counts).recommend(user_id, n)`
unfoldable pub recommend : (interaction_counts : List (String × ℕ)) (n : ℕ) → List String
recommend interaction_counts n = take n (map (λ p. p.0) (most_common interaction_counts))

-- `RandomBaseline(item_ids).recommend(user_id, n)`
unfoldable pub recommend_random :
    (sample : List String → ℕ → List String) (item_ids : List String) (n : ℕ) → List String
recommend_random sample item_ids n = sample item_ids (min n (length item_ids))

-- The recommended items are the `n` most counted ones, or all if there are fewer, most counted first:
-- with the other items behind them they are the given items in an order in which counts never rise.
pub recommend_lem :
    (interaction_counts : List (String × ℕ)) (n : ℕ)
    → (top rest : List (String × ℕ)) × (recommend interaction_counts n ≡ map (λ p. p.0) top)
      × (length top ≡ min n (length interaction_counts))
      × Perm (top ++ rest) interaction_counts
      × IsDescending ⦃f = counts⦄ count_of (top ++ rest)
unfolding recommend most_common
recommend_lem interaction_counts n =
    let order = sort_desc ⦃f = counts⦄ count_of interaction_counts in
    let whole = take-append-drop n order in
    (
      take n order,
      drop n order,
      sym (map-take n order (λ p. p.0)),
      length-take n order ∙ ap (min n) (length-sort_desc ⦃f = counts⦄ count_of interaction_counts),
      rw whole (sort_desc-perm ⦃f = counts⦄ count_of interaction_counts),
      rw whole (sort_desc-IsDescending ⦃f = counts⦄ count_of counts-IsOrdered interaction_counts),
    )
