-- ===== src/Retrieval/FaissIndex/Search.antt =====
-- What a search returns.
use mathlib.Core.List.{List, [], ◌∷◌, Mem, not-mem-nil}
use mathlib.Core.Logic.Or
use nexusfeed.Prelude.{
  ℕ, zero, suc, ◌<◌, ◌≡◌, refl, ◌⊎◌, min, true, none, some, String, length, get_elem?, arith,
}
use nexusfeed.Prelude.Int.{ℤ, pos, negsuc}
use nexusfeed.World.{Exn, ok, raise}
use nexusfeed.Retrieval.FaissIndex.{
  Faiss, labels, at_index, FaissIndex, is_ready, collect, search, load,
}

module _ {W : Type 0} (faiss : Faiss W) (id_map : List String) where
  -- every label is -1 or the number of an id
  abbrev Labelled : List (ℤ × W) → Type 0
  Labelled found =
      (label : ℤ) (s : W)
      → Mem (label, s) found
      → (label ≡ negsuc 0) ⊎ ((i : ℕ) × (label ≡ pos i) × (i < length id_map))

  -- the results name the labels that were found, in their order
  data Named : List (ℤ × W) → List (String × W) → Type 0 where
    done : Named [] []
    skip :
        {s : W} {found : List (ℤ × W)} {results : List (String × W)}
        → Named found results
        → Named ((negsuc 0, s) ∷ found) results
    named :
        {i : ℕ} {x : String} {s : W} {found : List (ℤ × W)} {results : List (String × W)}
        → get_elem? id_map i ≡ some x
        → Named found results
        → Named ((pos i, s) ∷ found) ((x, s) ∷ results)

collect_unnamed :
    {W : Type 0} (faiss : Faiss W) (found : List (ℤ × W)) (i : ℕ)
    → Mem i (labels found)
    → collect faiss [] found ≡ raise Exn.index_error
unfolding collect labels at_index
collect_unnamed faiss [] i m = absurd (not-mem-nil m)
collect_unnamed faiss ((pos j, s) ∷ found) i m = refl
collect_unnamed faiss ((negsuc zero, s) ∷ found) i m = collect_unnamed faiss found i m
collect_unnamed faiss ((negsuc (suc j), s) ∷ found) i m = ground arith

module _ {W : Type 0} (faiss : Faiss W) (self : FaissIndex faiss) where
  -- A search with an index that was loaded without its ids file raises an IndexError as soon as
  -- faiss finds an item, although `is_ready` is true after such a load.
  pub load-search_unnamed :
      (index : faiss.Index) (query : List W) (k : ℕ) (i : ℕ) (found : List (ℤ × W))
      → faiss.search index (faiss.normalize query) (min k (faiss.ntotal index)) ≡ ok found
      → Mem i (labels found)
      → (search faiss (load faiss self index none) query k ≡ raise Exn.index_error)
        × (is_ready faiss (load faiss self index none) ≡ true)
  unfolding load search
  load-search_unnamed index query k i found e m = (rw e (collect_unnamed faiss found i m), refl)
