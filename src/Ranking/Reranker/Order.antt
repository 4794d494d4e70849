-- ===== src/Ranking/Reranker/Order.antt =====
-- The order of `Reranker.apply`'s result where it is given no embeddings and no categories, as the
-- feed endpoint calls it.
use mathlib.Core.List.{Nodup, map-map}
use mathlib.Core.List.Perm
use nexusfeed.Prelude.{
  ℕ, ◌≡◌, refl, Option, some, List, [], String, map, string_eq, lookup_all_self,
}
use nexusfeed.Float.{Float, IsOrdered}
use nexusfeed.Sorting.{sort_desc, sort_desc-perm, sort_desc-IsDescending, IsDescending}
use nexusfeed.Types.{ScoredItem, Time}
use nexusfeed.Ranking.Diversity.{category_of, default_category_fraction}
use nexusfeed.Ranking.Diversity.Cap.{category_exposure_cap-one}
use nexusfeed.Ranking.Reranker.{Stamp, slice_to, diversify, adjust, id_of, key_of, finish, apply}
use nexusfeed.Ranking.Reranker.Adjusted.{IsAware, adjusted, adjust_all_aware}
use nexusfeed.Prelude.Int.{ℤ}

unknown : (x : String) → category_of [] x ≡ "unknown"
unfolding category_of
unknown x = refl

module _ {W : Type 0} ⦃f : Float W⦄ where
  finish_plain :
      (n : ℤ) (adjusted : List (ScoredItem W))
      → Nodup (map id_of adjusted)
      → finish [] n adjusted ≡ some (slice_to n adjusted)
  unfolding finish
  finish_plain n adjusted distinct =
      let same =
        category_exposure_cap-one [] (map id_of adjusted) default_category_fraction "unknown"
          (λ x m. unknown x) in
      rw (same, lookup_all_self id_of adjusted distinct, finish)

  module _ {V : Type 0} (max_sim_of : List V → Option (List ℕ → ℕ → W))
      (scored_items : List (ScoredItem W)) (n : ℤ) (seen_items : List String)
      (item_created_at : List (String × Stamp)) (preference : W) (now : Time) where
    abbrev adjust_one : ScoredItem W → ScoredItem W
    adjust_one = adjusted seen_items item_created_at [] now

    abbrev by_score : List (ScoredItem W)
    by_score = sort_desc key_of (map adjust_one scored_items)

    -- With neither embeddings nor categories, no naive creation time, and distinct ids,
    -- `Reranker.apply` returns the slice `[:n]` of the adjusted items sorted by descending score: the category cap moves nothing.
    pub apply_plain :
        IsOrdered W
        → IsAware item_created_at
        → Nodup (map id_of scored_items)
        → (apply max_sim_of scored_items n seen_items item_created_at [] [] preference now
            ≡ some (slice_to n by_score))
          × IsDescending key_of by_score
    unfolding apply adjust diversify
    apply_plain laws times_aware distinct =
        let ids : map id_of (map adjust_one scored_items) ≡ map id_of scored_items =
          map-map _ _ scored_items in
        let sorted = Perm.map id_of (sort_desc-perm key_of (map adjust_one scored_items)) in
        (
          rw (apply, adjust_all_aware seen_items item_created_at [] now times_aware scored_items)
              (finish_plain n by_score ((Perm.Nodup-iff sorted).1 (rw ids distinct))),
          sort_desc-IsDescending key_of laws (map adjust_one scored_items),
        )
