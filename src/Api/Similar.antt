-- ===== src/Api/Similar.antt =====
-- nexusfeed/api/routers/similar.py. A count `n` below zero is left out.
pub mod Results
use nexusfeed.Prelude.{
  ℕ, suc, ◌+◌, not, false, Option, none, some, List, [], ◌∷◌, map, String, take, filter, ◌==◌,
  string_eq, if◌then◌else◌,
}
use nexusfeed.Float.{Float}
use nexusfeed.Types.{Uuid, FeedItem}
use nexusfeed.World.{Result, ok, raise}
use nexusfeed.Retrieval.FaissIndex.{Faiss, FaissIndex, is_ready, search}
use nexusfeed.Repositories.Items.{Item, get_item, most_similar}

pub record SimilarItemsResponse (W : Type 0) : Type 0 where
  pub item_id : Uuid
  pub similar_items : List (FeedItem W)

-- `[FeedItem(…, rank=idx + 1) for idx, (iid, score) in enumerate(results)]`, from `rank` on
unfoldable pub ranked : {W : Type 0} → (rank : ℕ) → List (String × W) → List (FeedItem W)
ranked rank [] = []
ranked rank ((iid, score) ∷ results) =
    record {
      item_id = iid;
      score = score;
      rank = rank;
      category = none;
      is_trending = false;
      explanation = none;
    }
    ∷ ranked (suc rank) results

-- `[(iid, score) for iid, score in results if iid != str(item_id)][:n]`
unfoldable pub others : {W : Type 0} → Uuid → (n : ℕ) → List (String × W) → List (String × W)
unfolding filter
others item_id n results = take n (filter (λ r. not (r.0 == item_id)) results)

abbrev pub others_of :
    {W : Type 0} → Uuid → (n : ℕ) → Result (List (String × W)) → Result (List (String × W))
others_of item_id n (ok results) = ok (others item_id n results)
others_of item_id n (raise e) = raise e

-- the response, if the search returns
abbrev pub respond :
    {W : Type 0} → Uuid → Result (List (String × W)) → Result (SimilarItemsResponse W)
respond item_id (ok results) = ok (record { item_id = item_id; similar_items = ranked 1 results })
respond item_id (raise e) = raise e

-- `item is None or item.embedding is None`
abbrev pub embedding_of : {W : Type 0} → Option (Item W) → Option (List W)
embedding_of none = none
embedding_of (some item) = item.embedding

module _ {W : Type 0} ⦃f : Float W⦄ (faiss : Faiss W) (index : FaissIndex faiss)
    (by_distance : List W → List (Item W) → List (Item W)) where
  unfoldable pub results_for :
      List (Item W) → (item_id : Uuid) (n : ℕ) (embedding : List W) → Result (List (String × W))
  results_for items item_id n embedding =
      if is_ready faiss index
      then others_of item_id n (search faiss index embedding (n + 1))
      else ok
          (map (λ i. (i.id, f.lit 1 1)) (most_similar by_distance embedding n (some item_id) items))

  unfoldable pub get_similar_items :
      List (Item W) → (item_id : Uuid) (n : ℕ) → Result (SimilarItemsResponse W)
  get_similar_items items item_id n = elim (embedding_of (get_item item_id items)) [
    | none ↦ respond item_id (ok [])
    | some embedding ↦ respond item_id (results_for items item_id n embedding)
  ]
