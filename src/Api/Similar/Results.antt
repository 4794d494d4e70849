-- ===== src/Api/Similar/Results.antt =====
-- Which items the endpoint may name, and how they are ranked.
use mathlib.Core.List.{Mem, Perm, not-mem-nil, exists_of_mem-map}
use mathlib.Core.List.Perm
use mathlib.Core.Logic.{∥∥₁_elim}
use mathlib.Core.HLevel.{⊥_prop}
use nexusfeed.Prelude.{
  ℕ, zero, suc, ◌+◌, ◌≤◌, ◌≡◌, refl, sym, ap, subst, ◌∙◌, not, some, List, [], ◌∷◌, map, String,
  take, filter, Mem-filter, Mem-take, length, length-take, length-map, ◌==◌, string_eq, arith,
  Bool-cases, inl, inr, Option-cases,
}
use nexusfeed.Float.{Float}
use nexusfeed.Types.{Uuid, FeedItem}
use nexusfeed.World.{Result, ok, raise}
use nexusfeed.Retrieval.FaissIndex.{Faiss, FaissIndex, is_ready, search}
use nexusfeed.Repositories.Items.{Item, get_item, most_similar, without}
use nexusfeed.Api.Similar.{
  SimilarItemsResponse, ranked, others, others_of, respond, results_for, get_similar_items,
  embedding_of,
}

-- `range(rank, rank + n)`
abbrev pub ranks_from : (rank n : ℕ) → List ℕ
ranks_from rank zero = []
ranks_from rank (suc n) = rank ∷ ranks_from (suc rank) n

-- At most `n` results, none of them for the item itself.
pub record IsForOthers {W : Type 0} (item_id : Uuid) (n : ℕ) (results : List (String × W))
    : Type 0 where
  pub few : length results ≤ n
  pub others_only : ¬ Mem item_id (map (λ r. r.0) results)

ids-ranked :
    {W : Type 0} (rank : ℕ) (results : List (String × W))
    → map (λ (i : FeedItem W). i.item_id) (ranked rank results) ≡ map (λ r. r.0) results
unfolding ranked
ids-ranked rank [] = refl
ids-ranked rank ((iid, score) ∷ results) = ap (◌∷◌ iid) (ids-ranked (suc rank) results)

ranks-ranked :
    {W : Type 0} (rank : ℕ) (results : List (String × W))
    → map (λ (i : FeedItem W). i.rank) (ranked rank results) ≡ ranks_from rank (length results)
unfolding ranked
ranks-ranked rank [] = refl
ranks-ranked rank ((iid, score) ∷ results) = ap (◌∷◌ rank) (ranks-ranked (suc rank) results)

-- nothing in a list that was filtered by another id has this id
not-mem-filtered {ℓ} :
    {A : Type ℓ} (id_of : A → String) (item_id : String) (xs : List A) (n : ℕ)
    → ¬ Mem item_id (map id_of (take n (filter (λ x. not (id_of x == item_id)) xs)))
not-mem-filtered id_of item_id xs n m = ∥∥₁_elim (exists_of_mem-map m) ⊥_prop (λ (x, there, same).
    let (_, other) = Mem-filter (λ x. not (id_of x == item_id)) xs (Mem-take n _ there) in
    let equal = (string_eq.beq_iff (id_of x) item_id).1 same in ground arith)

others-IsForOthers :
    {W : Type 0} (item_id : Uuid) (n : ℕ) (results : List (String × W))
    → IsForOthers item_id n (others item_id n results)
unfolding others
others-IsForOthers item_id n results = record {
  few = omega (arith, length-take n (filter (λ r. not (r.0 == item_id)) results));
  others_only = not-mem-filtered (λ r. r.0) item_id results n;
}

-- What holds of a response.
pub record IsSimilarTo {W : Type 0} (item_id : Uuid) (n : ℕ) (response : SimilarItemsResponse W)
    : Type 0 where
  pub about : response.item_id ≡ item_id
  pub few : length response.similar_items ≤ n
  pub others_only : ¬ Mem item_id (map (λ (i : FeedItem W). i.item_id) response.similar_items)
  pub in_order :
      map (λ (i : FeedItem W). i.rank) response.similar_items
      ≡ ranks_from 1 (length response.similar_items)

length-ranked :
    {W : Type 0} (rank : ℕ) (results : List (String × W))
    → length (ranked rank results) ≡ length results
unfolding ranked
length-ranked rank [] = refl
length-ranked rank ((iid, score) ∷ results) = ap suc (length-ranked (suc rank) results)

ok-injective : {A : Type 0} {a b : A} → ok a ≡ ok b → a ≡ b
ok-injective h = cc

respond-IsSimilarTo :
    {W : Type 0} (item_id : Uuid) (n : ℕ) (r : Result (List (String × W)))
    (response : SimilarItemsResponse W)
    → ((results : List (String × W)) → r ≡ ok results → IsForOthers item_id n results)
    → respond item_id r ≡ ok response
    → IsSimilarTo item_id n response
respond-IsSimilarTo item_id n (raise e) response good h = absurd (cc)
respond-IsSimilarTo {W} item_id n (ok results) response good h =
    let proper = good results refl in
    let size = length-ranked 1 results in
    subst (IsSimilarTo item_id n) (ok-injective h) (record {
      about = refl;
      few = let fits = proper.few in omega arith;
      others_only = λ m. proper.others_only (subst (Mem item_id) (ids-ranked 1 results) m);
      in_order = ranks-ranked 1 results ∙ ap (ranks_from 1) (sym size);
    })

module _ {W : Type 0} ⦃f : Float W⦄ (faiss : Faiss W) (index : FaissIndex faiss)
    (by_distance : List W → List (Item W) → List (Item W))
    (orders : (e : List W) (xs : List (Item W)) → Perm (by_distance e xs) xs) where
  stored-IsForOthers :
      (items : List (Item W)) (item_id : Uuid) (n : ℕ) (e : List W)
      → IsForOthers item_id n
          (map (λ i. (i.id, f.lit 1 1)) (most_similar by_distance e n (some item_id) items))
  unfolding most_similar without
  stored-IsForOthers items item_id n e =
      let kept = filter (λ (i : Item W). not (i.id == item_id)) items in
      let near = take n (by_distance e kept) in
      record {
        few = omega (
          arith,
          length-take n (by_distance e kept),
          length-map {B = String × W} near (λ (i : Item W). (i.id, f.lit 1 1)),
        );
        others_only = λ m. ∥∥₁_elim (exists_of_mem-map m) ⊥_prop (λ (r, there, same).
            ∥∥₁_elim (exists_of_mem-map there) ⊥_prop (λ (i, here, made).
              let within = (Perm.mem_iff (orders e kept)).0 (Mem-take n _ here) in
              let (_, other) = Mem-filter (λ (i : Item W). not (i.id == item_id)) items within in
              let id_r : i.id ≡ r.0 = ap (λ (p : String × W). p.0) made in
              let equal = (string_eq.beq_iff i.id item_id).1 (id_r ∙ same) in ground arith));
      }

  results_for-IsForOthers :
      (items : List (Item W)) (item_id : Uuid) (n : ℕ) (e : List W) (results : List (String × W))
      → results_for faiss index by_distance items item_id n e ≡ ok results
      → IsForOthers item_id n results
  unfolding results_for
  results_for-IsForOthers items item_id n e results h = elim (Bool-cases (is_ready faiss index)) [
    | inl ready ↦ searched (search faiss index e (n + 1)) (rw ready at h)
    | inr cold ↦
        subst (IsForOthers item_id n) (ok-injective (rw cold at h))
          (stored-IsForOthers items item_id n e)
  ]
    where
      searched :
          (r : Result (List (String × W)))
          → others_of item_id n r ≡ ok results
          → IsForOthers item_id n results
      searched (ok found) same =
          subst (IsForOthers item_id n) (ok-injective same) (others-IsForOthers item_id n found)
      searched (raise e') same = absurd (cc)

  -- A response names at most `n` items, ranked from 1 on, and never the item that was asked about,
  -- whether the search index answers or the database.
  pub get_similar_items-IsSimilarTo :
      (items : List (Item W)) (item_id : Uuid) (n : ℕ) (response : SimilarItemsResponse W)
      → get_similar_items faiss index by_distance items item_id n ≡ ok response
      → IsSimilarTo item_id n response
  unfolding get_similar_items
  get_similar_items-IsSimilarTo items item_id n response h =
      elim (Option-cases (embedding_of (get_item item_id items))) [
        | inl missing ↦
            respond-IsSimilarTo item_id n (ok []) response
              (λ results e.
                subst (IsForOthers item_id n) (ok-injective e)
                  (record { few = omega arith; others_only = not-mem-nil }))
              (rw (missing, get_similar_items) at h)
        | inr (e, found) ↦
            respond-IsSimilarTo item_id n (results_for faiss index by_distance items item_id n e)
              response (results_for-IsForOthers items item_id n e)
              (rw (found, get_similar_items) at h)
      ]
