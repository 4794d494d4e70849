-- ===== src/Ranking/Reranker.antt =====
-- nexusfeed/ranking/reranker.py: `Reranker.apply`. `none` stands for an exception: a KeyError,
-- StopIteration or IndexError, the TypeError of a subtraction of a naive datetime, or the ValueError
-- of `np.array` for embeddings of different lengths. `max_sim_of` is numpy's part: whether the
-- embeddings make an array, and then the greatest similarity of a candidate to the selected ones.
-- `now` is aware, as the default is.
pub mod Adjusted
pub mod Size
pub mod Order
use nexusfeed.Prelude.{
  ℕ, ◌+◌, ◌-◌, ◌*◌, ◌^◌, Bool, true, false, Option, none, some, List, [], ◌∷◌, ◌++◌, String, map,
  leb, length, get_or, take, if◌then◌else◌, elem, filter, string_eq, ◌==◌, get, index_by,
  lookup_all, not,
}
use nexusfeed.Prelude.Int.{ℤ, pos, negsuc}
use nexusfeed.Prelude.Partial.{◌>>=◌}
use nexusfeed.Float.{Float, zero_score}
use nexusfeed.Sorting.{sort_desc}
use nexusfeed.Types.{ScoredItem, Time}
use nexusfeed.Ranking.Diversity.{mmr_rerank, category_exposure_cap, default_category_fraction}

-- `NEW_ITEM_WINDOW_HOURS`, in microseconds
abbrev pub new_item_window : Time
new_item_window = 24 * 3600 * 10 ^ 6

-- a datetime, with a time zone or without
pub data Stamp : Type 0 where
  aware naive : Time → Stamp

-- `created_at is not None and age_hours <= NEW_ITEM_WINDOW_HOURS`; a naive datetime cannot be
-- subtracted from `now`
unfoldable pub is_new : Time → Option Stamp → Option Bool
is_new now none = some false
is_new now (some (Stamp.aware created_at)) = some (leb now (created_at + new_item_window))
is_new now (some (Stamp.naive created_at)) = none

-- `xs[:n]`: a negative n leaves that many items out at the end
unfoldable pub slice_to {ℓ} : {A : Type ℓ} → ℤ → List A → List A
slice_to (pos n) xs = take n xs
slice_to (negsuc n) xs = take (length xs - (n + 1)) xs

-- `iid in item_embeddings`
abbrev pub has_embedding : {V : Type 0} → List (String × V) → String → Bool
has_embedding item_embeddings iid = elem iid (map (λ e. e.0) item_embeddings)

-- `d.get(key, default)`, where the default may be None
abbrev pub or_else {ℓ} : {A : Type ℓ} → Option A → Option A → Option A
or_else none d = d
or_else (some a) d = some a

module _ {W : Type 0} ⦃f : Float W⦄ where
  abbrev pub seen_item_penalty : W
  seen_item_penalty = f.lit 5 10

  abbrev pub freshness_boost : W
  freshness_boost = f.lit 110 100

  abbrev pub id_of : ScoredItem W → String
  id_of i = i.item_id

  abbrev pub key_of : ScoredItem W → W
  key_of i = i.score

  -- the item that the body of the first `for` appends
  unfoldable pub adjust :
      (seen_items : List String) (item_categories : List (String × String))
      → (fresh : Bool) → ScoredItem W
      → ScoredItem W
  unfolding elem get
  adjust seen_items item_categories fresh item =
      let penalised =
        if elem item.item_id seen_items then f.mul item.score seen_item_penalty else item.score in
      record {
        item_id = item.item_id;
        score = if fresh then f.mul penalised freshness_boost else penalised;
        category = or_else (get item.item_id item_categories) item.category;
        is_trending = item.is_trending;
        freshness_boosted = fresh;
        explanation = none;
      }

  -- the first `for`
  unfoldable pub adjust_all :
      (seen_items : List String) (item_created_at : List (String × Stamp))
      → (item_categories : List (String × String)) (now : Time) → List (ScoredItem W)
      → Option (List (ScoredItem W))
  unfolding adjust is_new get
  adjust_all seen_items item_created_at item_categories now [] = some []
  adjust_all seen_items item_created_at item_categories now (item ∷ items) = do
    fresh ← is_new now (get item.item_id item_created_at)
    adjusted ← adjust_all seen_items item_created_at item_categories now items
    some (adjust seen_items item_categories fresh item ∷ adjusted)

  -- `next(i.score for i in adjusted if i.item_id == iid)`
  unfoldable pub first_score : List (ScoredItem W) → String → Option W
  first_score [] iid = none
  first_score (i ∷ items) iid = if i.item_id == iid then some i.score else first_score items iid

  unfoldable pub first_scores : List (ScoredItem W) → List String → Option (List W)
  unfolding first_score
  first_scores adjusted [] = some []
  first_scores adjusted (iid ∷ ids) = do
    score ← first_score adjusted iid
    scores ← first_scores adjusted ids
    some (score ∷ scores)

  -- the rest of `apply`: the category cap, and the slice
  unfoldable pub finish :
      List (String × String) → ℤ → List (ScoredItem W) → Option (List (ScoredItem W))
  unfolding category_exposure_cap lookup_all index_by slice_to
  finish item_categories n adjusted = do
    final ←
        lookup_all (index_by id_of adjusted)
          (category_exposure_cap item_categories (map id_of adjusted) default_category_fraction)
    some (slice_to n final)

  module _ {V : Type 0} (max_sim_of : List V → Option (List ℕ → ℕ → W)) where
    -- the body of `if ids_with_embeddings:`
    unfoldable pub mmr_order :
        List (String × V) → W → List (ScoredItem W) → List String → Option (List (ScoredItem W))
    unfolding lookup_all first_scores mmr_rerank index_by filter elem
    mmr_order item_embeddings preference adjusted ids = do
      embeddings ← lookup_all item_embeddings ids
      max_sim ← max_sim_of embeddings
      relevance ← first_scores adjusted ids
      order ← mmr_rerank (λ i. get_or relevance i zero_score) max_sim preference ids (length ids)
      chosen ← lookup_all (index_by id_of adjusted) order
      some (chosen ++ filter (λ item. not (has_embedding item_embeddings item.item_id)) adjusted)

    -- `if item_embeddings:` and `if ids_with_embeddings:`
    unfoldable pub diversify :
        List (String × V) → W → List (ScoredItem W) → Option (List (ScoredItem W))
    unfolding mmr_order filter elem
    diversify [] preference adjusted = some adjusted
    diversify (e ∷ item_embeddings) preference adjusted =
        elim (filter (has_embedding (e ∷ item_embeddings)) (map id_of adjusted)) [
          | [] ↦ some adjusted
          | iid ∷ ids ↦ mmr_order (e ∷ item_embeddings) preference adjusted (iid ∷ ids)
        ]

    unfoldable pub apply :
        (scored_items : List (ScoredItem W)) (n : ℤ) (seen_items : List String)
        → (item_created_at : List (String × Stamp)) (item_categories : List (String × String))
        → (item_embeddings : List (String × V)) (user_diversity_preference : W) (now : Time)
        → Option (List (ScoredItem W))
    unfolding adjust_all diversify finish sort_desc
    apply scored_items n seen_items item_created_at item_categories item_embeddings preference now =
        do
          adjusted ← adjust_all seen_items item_created_at item_categories now scored_items
          diverse ← diversify item_embeddings preference (sort_desc key_of adjusted)
          finish item_categories n diverse
