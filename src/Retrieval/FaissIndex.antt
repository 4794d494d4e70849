-- ===== src/Retrieval/FaissIndex.antt =====
-- nexusfeed/retrieval/faiss_index.py: `FaissIndex`. The faiss library and the vector arithmetic of
-- numpy are an argument; the ids file of `load` is given as its lines, if it exists.
pub mod Search
use mathlib.Core.List.{Mem, Nodup}
use nexusfeed.Prelude.{
  ℕ, zero, suc, ◌-◌, ◌+◌, ◌<◌, ◌≡◌, ◌⊎◌, min, Bool, true, false, Option, none, some, List, [], ◌∷◌,
  String, length, get_elem?, if◌then◌else◌, ltb, nat_beq,
}
use nexusfeed.Prelude.Int.{ℤ, pos, negsuc}
use nexusfeed.World.{Exn, Result, ok, raise}

pub record Faiss (W : Type 0) : Type 1 where
  pub Index : Type 0
  -- `IndexHNSWFlat(dim, m, METRIC_INNER_PRODUCT)` with its `efConstruction` and `efSearch`
  pub new : (dim m ef_construction ef_search : ℕ) → Index
  pub add : Index → List (List W) → Index
  pub ntotal : Index → ℕ
  -- `index.d`
  pub dim_of : Index → ℕ
  -- The labels and scores that are found for one query; the label is -1 where there is none. It raises
  -- an AssertionError for k = 0 and for a query of another length than the vectors.
  pub search : Index → List W → ℕ → Result (List (ℤ × W))
  -- `x / (np.linalg.norm(x) + 1e-9)`
  pub normalize : List W → List W

-- the labels that are not -1
unfoldable pub labels : {W : Type 0} → List (ℤ × W) → List ℕ
labels [] = []
labels ((pos i, s) ∷ found) = i ∷ labels found
labels ((negsuc i, s) ∷ found) = labels found

-- what a search may find: k labels, each of them -1 or the number of a vector, and no vector twice
pub record IsFound {W : Type 0} (total k : ℕ) (found : List (ℤ × W)) : Type 0 where
  pub count : length found ≡ k
  pub label :
      (label : ℤ) (s : W)
      → Mem (label, s) found
      → (label ≡ negsuc 0) ⊎ ((i : ℕ) × (label ≡ pos i) × (i < total))
  pub distinct : Nodup (labels found)

-- What faiss and numpy document: an index keeps its dimension, `add` numbers the vectors on, a
-- normalised vector is as long as before, and a search for at least one vector with a query of the
-- index's dimension returns.
pub record Laws {W : Type 0} (faiss : Faiss W) : Type 0 where
  pub ntotal_new :
      (dim m ef_construction ef_search : ℕ)
      → faiss.ntotal (faiss.new dim m ef_construction ef_search) ≡ 0
  pub ntotal_add :
      (index : faiss.Index) (vectors : List (List W))
      → faiss.ntotal (faiss.add index vectors) ≡ faiss.ntotal index + length vectors
  pub dim_new :
      (dim m ef_construction ef_search : ℕ)
      → faiss.dim_of (faiss.new dim m ef_construction ef_search) ≡ dim
  pub dim_add :
      (index : faiss.Index) (vectors : List (List W))
      → faiss.dim_of (faiss.add index vectors) ≡ faiss.dim_of index
  pub normalize_length : (v : List W) → length (faiss.normalize v) ≡ length v
  pub search_found :
      (index : faiss.Index) (query : List W) (k : ℕ)
      → 0 < k
      → length query ≡ faiss.dim_of index
      → (found : List (ℤ × W)) × (faiss.search index query k ≡ ok found)
        × IsFound (faiss.ntotal index) k found

-- `xs[i]`: a negative index counts from the end
unfoldable pub at_index {ℓ} : {A : Type ℓ} → List A → ℤ → Option A
at_index xs (pos i) = get_elem? xs i
at_index xs (negsuc i) = if ltb i (length xs) then get_elem? xs (length xs - i - 1) else none

-- `idx == -1`
abbrev pub is_missing : ℤ → Bool
is_missing (pos i) = false
is_missing (negsuc zero) = true
is_missing (negsuc (suc i)) = false

-- `results.append(r)`, before what the rest of the loop appends
abbrev pub prepend {ℓ} : {A : Type ℓ} → A → Result (List A) → Result (List A)
prepend x (ok xs) = ok (x ∷ xs)
prepend x (raise e) = raise e

-- `embeddings.shape[1]`, and the rows
pub record Matrix (W : Type 0) : Type 0 where
  pub columns : ℕ
  pub rows : List (List W)

module _ {W : Type 0} (faiss : Faiss W) where
  open faiss use {Index, new, add, ntotal, normalize}

  pub record FaissIndex : Type 0 where
    pub dim : ℕ
    pub m : ℕ
    pub ef_construction : ℕ
    pub ef_search : ℕ
    pub index : Option Index
    pub id_map : List String

  abbrev pub is_ready : FaissIndex → Bool
  is_ready self = elim self.index [ none ↦ false | some _ ↦ true ]

  abbrev pub size : FaissIndex → ℕ
  size self = elim self.index [ none ↦ 0 | some index ↦ ntotal index ]

  -- `[normalize(row) for row in embeddings]`
  unfoldable pub normalize_rows : List (List W) → List (List W)
  normalize_rows [] = []
  normalize_rows (row ∷ rows) = normalize row ∷ normalize_rows rows

  abbrev pub filled : FaissIndex → Matrix W → Index
  filled self embeddings =
      add (new self.dim self.m self.ef_construction self.ef_search) (normalize_rows embeddings.rows)

  -- the object after the call, and how the call ends
  unfoldable pub build : FaissIndex → List String → Matrix W → FaissIndex × Result (Unit {0})
  build self item_ids embeddings =
      if nat_beq embeddings.columns self.dim
      then (record self { index = some (filled self embeddings); id_map = item_ids }, ok tt)
      else (self, raise Exn.value_error)

  -- the loop of `search`
  unfoldable pub collect : (id_map : List String) → List (ℤ × W) → Result (List (String × W))
  collect id_map [] = ok []
  collect id_map ((idx, score) ∷ found) =
      let rest = collect id_map found in
      if is_missing idx then rest else elim (at_index id_map idx) [
        | none ↦ raise Exn.index_error
        | some item_id ↦ prepend (item_id, score) rest
      ]

  unfoldable pub search :
      FaissIndex → (query_embedding : List W) (k : ℕ) → Result (List (String × W))
  search self query_embedding k = elim self.index [
    | none ↦ raise Exn.index_not_ready
    | some index ↦ elim (faiss.search index (normalize query_embedding) (min k (ntotal index))) [
      | ok found ↦ collect self.id_map found
      | raise e ↦ raise e
    ]
  ]

  -- what `read_index` returns, and the lines of the ids file
  unfoldable pub load : FaissIndex → Index → Option (List String) → FaissIndex
  load self index ids_file = record self {
    index = some index;
    id_map = elim ids_file [ none ↦ [] | some lines ↦ lines ];
  }
