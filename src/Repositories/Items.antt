-- ===== src/Repositories/Items.antt =====
-- nexusfeed/db/repositories/item_repo.py: `ItemRepository`.
use nexusfeed.Prelude.{
  ℕ, ◌+◌, not, Option, none, some, List, [], ◌∷◌, String, take, filter, elem, ◌==◌, string_eq,
  if◌then◌else◌,
}
use nexusfeed.Float.{Float, zero_score}
use nexusfeed.Types.{Uuid, Time}

-- a row of the table items; its JSON column is not used by the repository
pub record Item (W : Type 0) : Type 0 where
  pub id : Uuid
  pub category : String
  pub content_text : Option String
  pub embedding : Option (List W)
  pub freshness_score : W
  pub popularity_score : W
  pub impression_count : ℕ
  pub historical_ctr : W
  pub created_at : Time

module _ {W : Type 0} ⦃f : Float W⦄ where
  unfoldable pub create :
      (id : Uuid) (now : Time) (category : String) (content_text : Option String)
      (embedding : Option (List W))
      → List (Item W)
      → List (Item W) × Item W
  create id now category content_text embedding items =
      let item : Item W = record {
        id = id;
        category = category;
        content_text = content_text;
        embedding = embedding;
        freshness_score = f.lit 1 1;
        popularity_score = zero_score;
        impression_count = 0;
        historical_ctr = zero_score;
        created_at = now;
      } in
      (item ∷ items, item)

module _ {W : Type 0} where
  -- `session.get(Item, item_id)`
  unfoldable pub get_item : Uuid → List (Item W) → Option (Item W)
  get_item item_id [] = none
  get_item item_id (item ∷ items) = if item.id == item_id then some item else get_item item_id items

  unfoldable pub get_many : List Uuid → List (Item W) → List (Item W)
  unfolding elem filter
  get_many item_ids items = filter (λ item. elem item.id item_ids) items

  -- `where(Item.id != exclude)`
  unfoldable pub without : Option Uuid → List (Item W) → List (Item W)
  unfolding filter
  without none items = items
  without (some exclude) items = filter (λ item. not (item.id == exclude)) items

  -- `by_distance` is the order of the cosine distance to the vector
  unfoldable pub most_similar :
      (by_distance : List W → List (Item W) → List (Item W)) (embedding : List W) (k : ℕ)
      (exclude : Option Uuid)
      → List (Item W)
      → List (Item W)
  most_similar by_distance embedding k exclude items =
      take k (by_distance embedding (without exclude items))

  -- `update(Item).where(Item.id == item_id)`
  unfoldable pub update_item : Uuid → (change : Item W → Item W) → List (Item W) → List (Item W)
  update_item item_id change [] = []
  update_item item_id change (item ∷ items) =
      (if item.id == item_id then change item else item) ∷ update_item item_id change items

  unfoldable pub increment_impressions : Uuid → (by : ℕ) → List (Item W) → List (Item W)
  unfolding update_item
  increment_impressions item_id by =
      update_item item_id (λ item. record item { impression_count = item.impression_count + by })

  unfoldable pub update_ctr : Uuid → (ctr : W) → List (Item W) → List (Item W)
  unfolding update_item
  update_ctr item_id ctr = update_item item_id (λ item. record item { historical_ctr = ctr })

  -- `newest_first` is the order of `created_at DESC`
  unfoldable pub by_category :
      (newest_first : List (Item W) → List (Item W)) (category : String) (limit : ℕ)
      → List (Item W)
      → List (Item W)
  unfolding filter
  by_category newest_first category limit items =
      take limit (newest_first (filter (λ item. item.category == category) items))
