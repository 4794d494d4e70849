-- ===== src/Retrieval/IndexBuilder.antt =====
-- nexusfeed/retrieval/index_builder.py: `IndexBuilder`. The rows of the items table that have an
-- embedding are an argument; `np.array` of rows of unequal length raises a ValueError.
use nexusfeed.Prelude.{
  ℕ, Bool, true, false, none, List, [], ◌∷◌, ◌++◌, map, String, length, get_default, put, nat_beq,
  string_eq, if◌then◌else◌,
}
use nexusfeed.World.{Exn, Result, ok, raise}
use nexusfeed.Retrieval.FaissIndex.{Faiss, FaissIndex, Matrix, build}

pub record Item (W : Type 0) : Type 0 where
  pub id : String
  pub category : String
  pub embedding : List W

abbrev pub all_of_length : {W : Type 0} → ℕ → List (List W) → Bool
all_of_length n [] = true
all_of_length n (row ∷ rows) = if nat_beq (length row) n then all_of_length n rows else false

-- `np.array([...], dtype=np.float32)` of at least one row
abbrev pub array_of : {W : Type 0} → List W → List (List W) → Result (Matrix W)
array_of row rows =
    if all_of_length (length row) rows
    then ok (record { columns = length row; rows = row ∷ rows })
    else raise Exn.value_error

module _ {W : Type 0} (faiss : Faiss W) (embedding_dim : ℕ) where
  -- `FaissIndex(dim=self.embedding_dim)`
  abbrev pub empty_index : FaissIndex faiss
  empty_index = record {
    dim = embedding_dim;
    m = 32;
    ef_construction = 200;
    ef_search = 64;
    index = none;
    id_map = [];
  }

  -- the index after `build`, or its exception
  abbrev pub built : FaissIndex faiss × Result (Unit {0}) → Result (FaissIndex faiss)
  built (index, ok _) = ok index
  built (index, raise e) = raise e

  unfoldable pub build_items : Item W → List (Item W) → Result (FaissIndex faiss)
  unfolding build
  build_items item items =
      elim (array_of item.embedding (map (λ (i : Item W). i.embedding) items)) [
        | raise e ↦ raise e
        | ok embeddings ↦
            built (build faiss empty_index (map (λ (i : Item W). i.id) (item ∷ items)) embeddings)
      ]

  unfoldable pub build_global_index : List (Item W) → Result (FaissIndex faiss)
  unfolding build_items
  build_global_index [] = ok empty_index
  build_global_index (item ∷ items) = build_items item items

  -- `by_category[item.category].append(item)`
  unfoldable pub group_by_category :
      List (String × List (Item W)) → List (Item W) → List (String × List (Item W))
  group_by_category groups [] = groups
  group_by_category groups (item ∷ items) =
      group_by_category
        (put item.category (get_default item.category [] groups ++ item ∷ []) groups) items

  -- one index for each group; no group is empty, and the first exception ends the loop
  unfoldable pub build_groups :
      List (String × List (Item W)) → Result (List (String × FaissIndex faiss))
  unfolding build_global_index
  build_groups [] = ok []
  build_groups ((category, items) ∷ groups) = elim (build_global_index items) [
    | raise e ↦ raise e
    | ok index ↦ elim (build_groups groups) [
      | raise e ↦ raise e
      | ok indices ↦ ok ((category, index) ∷ indices)
    ]
  ]

  unfoldable pub build_category_indices : List (Item W) → Result (List (String × FaissIndex faiss))
  unfolding group_by_category build_groups
  build_category_indices items = build_groups (group_by_category [] items)
