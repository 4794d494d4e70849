-- ===== src/Training/DataLoader.antt =====
-- training/data_loader.py: `InteractionDataset` on the rows of its dataframe. A tensor is the list, or
-- the number, that it is made of.
pub mod Padding
use nexusfeed.Prelude.{
  ℕ, ◌-◌, Option, none, some, List, [], ◌∷◌, ◌++◌, nat_beq, length, drop, replicate, get_elem?,
  if◌then◌else◌,
}
use nexusfeed.Prelude.Partial.{◌>>=◌}
use nexusfeed.Float.{Float, zero_score}
use nexusfeed.Training.NegativeSampling.{sample_in_batch_negatives}

-- `list(sequence)[-length:]`, in which -0 is 0
unfoldable pub last_items : List ℕ → (length' : ℕ) → List ℕ
last_items sequence length' =
    if nat_beq length' 0 then sequence else drop (length sequence - length') sequence

unfoldable pub pad_sequence : List ℕ → (length' : ℕ) → List ℕ
unfolding last_items
pad_sequence sequence length' =
    let cut = last_items sequence length' in replicate (length' - length cut) 0 ++ cut

pub record Row (W : Type 0) : Type 0 where
  pub user_id : ℕ
  pub device_id : ℕ
  pub time_of_day : ℕ
  pub age : W
  pub recent_item_sequence : List ℕ
  pub item_id : ℕ
  pub category_id : ℕ
  pub content_embedding : List W
  pub freshness_score : W
  pub historical_ctr : W

pub record UserBatch (W : Type 0) : Type 0 where
  pub user_ids : ℕ
  pub device_ids : ℕ
  pub time_of_day : ℕ
  pub age : W
  pub recent_item_sequence : List ℕ

pub record ItemBatch (W : Type 0) : Type 0 where
  pub item_ids : ℕ
  pub category_ids : ℕ
  pub content_embedding : List W
  pub freshness_score : W
  pub historical_ctr : W

pub record NegativeBatch (W : Type 0) : Type 0 where
  pub item_ids : List ℕ
  pub category_ids : List ℕ
  pub content_embedding : List (List W)
  pub freshness_score : List W
  pub historical_ctr : List W

pub record InteractionDataset (W : Type 0) : Type 0 where
  pub df : List (Row W)
  pub num_items : ℕ
  pub sequence_length : ℕ
  pub negative_ratio : ℕ

-- the first row of the sampled negatives
abbrev pub first_row : List (List ℕ) → Option (List ℕ)
first_row rows = get_elem? rows 0

module _ {W : Type 0} ⦃f : Float W⦄ where
  unfoldable pub user_batch_of : InteractionDataset W → Row W → UserBatch W
  unfolding pad_sequence
  user_batch_of self row = record {
    user_ids = row.user_id;
    device_ids = row.device_id;
    time_of_day = row.time_of_day;
    age = row.age;
    recent_item_sequence = pad_sequence row.recent_item_sequence self.sequence_length;
  }

  unfoldable pub item_batch_of : Row W → ItemBatch W
  item_batch_of row = record {
    item_ids = row.item_id;
    category_ids = row.category_id;
    content_embedding = row.content_embedding;
    freshness_score = row.freshness_score;
    historical_ctr = row.historical_ctr;
  }

  unfoldable pub negative_batch_of :
      InteractionDataset W → Row W → (negatives : List ℕ) → NegativeBatch W
  negative_batch_of self row negatives = record {
    item_ids = negatives;
    category_ids = replicate self.negative_ratio 0;
    content_embedding =
        replicate self.negative_ratio (replicate (length row.content_embedding) zero_score);
    freshness_score = replicate self.negative_ratio zero_score;
    historical_ctr = replicate self.negative_ratio zero_score;
  }

  -- `dataset[idx]`; `none` is an IndexError, or a sampling that does not end within `fuel` rounds
  unfoldable pub get_item :
      (randint : ℕ → ℕ) (fuel : ℕ) (self : InteractionDataset W) (idx : ℕ)
      → Option (UserBatch W × ItemBatch W × NegativeBatch W)
  unfolding user_batch_of item_batch_of negative_batch_of
  get_item randint fuel self idx = do
    row ← get_elem? self.df idx
    rows ← sample_in_batch_negatives randint self.negative_ratio fuel (row.item_id ∷ [])
    negatives ← first_row rows
    some (user_batch_of self row, item_batch_of row, negative_batch_of self row negatives)
