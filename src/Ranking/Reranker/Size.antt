-- ===== src/Ranking/Reranker/Size.antt =====
-- `Reranker.apply` never raises, and returns distinct positions of its input, `n` at most.
use mathlib.Core.List.{
  Perm, Mem, mem-cons_self, mem-cons_of_mem, mem-append, append-nil, map-append, map-map,
  mem-append_left, Mem-prop,
}
use mathlib.Core.List.Perm
use mathlib.Core.Logic.Or
use nexusfeed.Prelude.{
  ℕ, ◌+◌, ◌-◌, ◌≡◌, refl, min, Option, lookup_all, true, not, some, List, [], ◌∷◌, ◌++◌, String,
  map, length, length-perm, length-append, length-map, length-take, drop, take-append-drop, elem,
  elem_of_Mem, filter, filter-perm, map-filter, Mem-filter, string_eq, ◌==◌, arith, Bool-cases, inl,
  inr, lookup_all-index_by, lookup_all_of_elem, get_or,
}
use nexusfeed.Float.{Float, zero_score}
use nexusfeed.Sorting.{sort_desc, sort_desc-perm}
use nexusfeed.Types.{ScoredItem, Time}
use nexusfeed.Ranking.Diversity.{default_category_fraction}
use nexusfeed.Ranking.Diversity.Cap.{category_exposure_cap-perm}
use nexusfeed.Ranking.Diversity.Mmr.{mmr_rerank-perm}
use nexusfeed.Prelude.Int.{ℤ, pos, negsuc}
use nexusfeed.Ranking.Reranker.Adjusted.{IsAware, adjusted, adjust_all_aware}
use nexusfeed.Ranking.Reranker.{
  Stamp, slice_to, adjust, id_of, key_of, first_score, first_scores, has_embedding, mmr_order,
  diversify, finish, apply,
}

pub Perm_of_full {ℓ} :
    {A : Type ℓ} {xs ys : List A} (left : List A)
    → Perm (xs ++ left) ys
    → length xs ≡ length ys
    → Perm xs ys
Perm_of_full {xs} [] p h = rw append-nil at p
Perm_of_full {xs} {ys} (x ∷ left) p h =
    absurd (omega (arith, length-append xs (x ∷ left), length-perm p))

-- how many of `count` items `xs[:n]` has
abbrev pub slice_size : ℤ → (count : ℕ) → ℕ
slice_size (pos n) count = min n count
slice_size (negsuc n) count = count - (n + 1)

length-slice_to {ℓ} :
    {A : Type ℓ} (n : ℤ) (xs : List A) → length (slice_to n xs) ≡ slice_size n (length xs)
unfolding slice_to
length-slice_to (pos n) xs = length-take n xs
length-slice_to (negsuc n) xs = omega (arith, length-take (length xs - (n + 1)) xs)

slice_to-prefix {ℓ} :
    {A : Type ℓ} (n : ℤ) (xs : List A) → (rest : List A) × (slice_to n xs ++ rest ≡ xs)
unfolding slice_to
slice_to-prefix (pos n) xs = (drop n xs, take-append-drop n xs)
slice_to-prefix (negsuc n) xs =
    (drop (length xs - (n + 1)) xs, take-append-drop (length xs - (n + 1)) xs)

module _ {W : Type 0} ⦃f : Float W⦄ where
  first_score_found :
      (adjusted : List (ScoredItem W)) (iid : String)
      → elem iid (map id_of adjusted) ≡ true
      → (s : W) × (first_score adjusted iid ≡ some s)
  unfolding first_score elem
  first_score_found [] iid h = absurd (cc)
  first_score_found (i ∷ items) iid h = elim (Bool-cases (i.item_id == iid)) [
    | inl same ↦ (i.score, rw same)
    | inr other ↦ rw other (first_score_found items iid (ground arith))
  ]

  first_scores_found :
      (adjusted : List (ScoredItem W)) (ids : List String)
      → ((iid : String) → Mem iid ids → Mem iid (map id_of adjusted))
      → (scores : List W) × (first_scores adjusted ids ≡ some scores)
  unfolding first_scores
  first_scores_found adjusted [] h = ([], refl)
  first_scores_found adjusted (iid ∷ ids) h =
      let (s, found) = first_score_found adjusted iid (elem_of_Mem iid _ (h iid mem-cons_self)) in
      let (scores, rest) = first_scores_found adjusted ids (λ j m. h j (mem-cons_of_mem iid m)) in
      (s ∷ scores, rw (found, rest, first_scores))

  -- a step that reorders a list of items: it keeps the ids, and every item is one of the list
  pub record Reorders (before after : List (ScoredItem W)) : Type 0 where
    pub ids : Perm (map id_of after) (map id_of before)
    pub members : (item : ScoredItem W) → Mem item after → Mem item before

  -- numpy makes an array of the embeddings of any items that have one
  abbrev pub Stacks : {V : Type 0} → (List V → Option (List ℕ → ℕ → W)) → List (String × V) → Type 0
  Stacks {V} max_sim_of item_embeddings =
      (item_id : String) (ids : List String) (embeddings : List V)
      → lookup_all item_embeddings (item_id ∷ ids) ≡ some embeddings
      → (max_sim : List ℕ → ℕ → W) × (max_sim_of embeddings ≡ some max_sim)

  pub Stacks-nil :
      {V : Type 0} (max_sim_of : List V → Option (List ℕ → ℕ → W)) → Stacks max_sim_of []
  unfolding lookup_all
  Stacks-nil max_sim_of item_id ids embeddings e = absurd (cc)

  module _ {V : Type 0} (max_sim_of : List V → Option (List ℕ → ℕ → W)) (preference : W) where
    mmr_order_total :
        (e : List (String × V)) (adjusted : List (ScoredItem W)) (first : String)
        (others : List String)
        → Stacks max_sim_of e
        → filter (has_embedding e) (map id_of adjusted) ≡ first ∷ others
        → (out : List (ScoredItem W)) × (mmr_order max_sim_of e preference adjusted (first ∷ others)
            ≡ some out)
          × Reorders adjusted out
    unfolding mmr_order
    mmr_order_total e adjusted first others stacks same =
        let ids = first ∷ others in
        let has = has_embedding e in
        let inside : (iid : String)
            → Mem iid ids
            → Mem iid (map id_of adjusted) × (has iid ≡ true) =
          λ iid m. Mem-filter has (map id_of adjusted) (rw same m) in
        let (embs, e1) = lookup_all_of_elem e ids (λ iid m. (inside iid m).1) in
        let (max_sim, e0) = stacks first others embs e1 in
        let (rel, e2) = first_scores_found adjusted ids (λ iid m. (inside iid m).0) in
        let (order, left, e3, len, parts) =
          mmr_rerank-perm (λ i. get_or rel i zero_score) max_sim preference ids (length ids) in
        let order_ids : Perm order ids = Perm_of_full left parts (omega arith) in
        let (chosen, e4, keys, members) =
          lookup_all-index_by id_of adjusted order
            (λ iid m. (inside iid ((Perm.mem_iff order_ids).0 m)).0) in
        let rest = filter (λ item. not (has item.item_id)) adjusted in
        let rest_ids : map id_of rest ≡ filter (λ iid. not (has iid)) (map id_of adjusted) =
          map-filter id_of (λ iid. not (has iid)) adjusted in
        let whole : Perm (ids ++ filter (λ iid. not (has iid)) (map id_of adjusted))
            (map id_of adjusted) =
          rw same at (filter-perm has (map id_of adjusted)) in
        (
          chosen ++ rest,
          rw (e1, e0, e2, e3, e4, mmr_order),
          record {
            ids =
                rw (map-append, keys, rest_ids) (Perm.trans (Perm.append_right _ order_ids) whole);
            members = λ item m.
                Or.elim Mem-prop (mem-append.0 m) (members item)
                  (λ kept. (Mem-filter _ adjusted kept).0);
          },
        )

    diversify_total :
        (e : List (String × V)) (adjusted : List (ScoredItem W))
        → Stacks max_sim_of e
        → (out : List (ScoredItem W)) × (diversify max_sim_of e preference adjusted ≡ some out)
          × Reorders adjusted out
    unfolding diversify
    diversify_total [] adjusted stacks =
        (adjusted, refl, record { ids = Perm.refl _; members = λ item m. m })
    diversify_total (e ∷ es) adjusted stacks =
        by_ids (filter (has_embedding (e ∷ es)) (map id_of adjusted)) refl
      where
        by_ids :
            (ids : List String)
            → filter (has_embedding (e ∷ es)) (map id_of adjusted) ≡ ids
            → (out : List (ScoredItem W)) × (diversify max_sim_of (e ∷ es) preference adjusted
                ≡ some out)
              × Reorders adjusted out
        by_ids [] same =
            (adjusted, rw (same, diversify), record { ids = Perm.refl _; members = λ item m. m })
        by_ids (iid ∷ ids) same =
            rw (same, diversify) (mmr_order_total (e ∷ es) adjusted iid ids stacks same)

  finish_total :
      (categories : List (String × String)) (n : ℤ) (adjusted : List (ScoredItem W))
      → (final : List (ScoredItem W)) × (finish categories n adjusted ≡ some (slice_to n final))
        × Reorders adjusted final
  unfolding finish
  finish_total categories n adjusted =
      let capped =
        category_exposure_cap-perm categories (map id_of adjusted) default_category_fraction in
      let (final, found, keys, members) =
        lookup_all-index_by id_of adjusted _ (λ iid m. (Perm.mem_iff capped).0 m) in
      (final, rw (found, finish), record { ids = rw keys capped; members = members })

  Reorders-trans :
      {xs ys zs : List (ScoredItem W)} → Reorders xs ys → Reorders ys zs → Reorders xs zs
  Reorders-trans p q = record {
    ids = Perm.trans q.ids p.ids;
    members = λ item m. p.members item (q.members item m);
  }

  module _ {V : Type 0} (max_sim_of : List V → Option (List ℕ → ℕ → W))
      (scored_items : List (ScoredItem W)) (n : ℤ) (seen_items : List String)
      (item_created_at : List (String × Stamp)) (item_categories : List (String × String))
      (item_embeddings : List (String × V)) (preference : W) (now : Time) where
    abbrev adjust_one : ScoredItem W → ScoredItem W
    adjust_one = adjusted seen_items item_created_at item_categories now

    abbrev adjusted_items : List (ScoredItem W)
    adjusted_items = map adjust_one scored_items

    adjusted_ids : map id_of adjusted_items ≡ map id_of scored_items
    unfolding adjust
    adjusted_ids = map-map _ _ scored_items

    -- If no creation time is naive and the embeddings make an array, `Reranker.apply` raises no
    -- exception. It returns `min(n, len(scored_items))` items, or for a negative n so many fewer than
    -- there are. Their ids and those of some dropped items are the input's ids rearranged, so no id
    -- is invented and none appears more often than in the input; and every item returned is an input
    -- item with its score adjusted.
    pub apply_total :
        IsAware item_created_at
        → Stacks max_sim_of item_embeddings
        → (out : List (ScoredItem W)) × (dropped : List String) × (apply max_sim_of scored_items n
              seen_items item_created_at item_categories item_embeddings preference now
            ≡ some out)
          × (length out ≡ slice_size n (length scored_items))
          × Perm (map id_of out ++ dropped) (map id_of scored_items)
          × ((item : ScoredItem W) → Mem item out → Mem item (map adjust_one scored_items))
    unfolding apply
    apply_total times_aware stacks =
        let first =
          adjust_all_aware seen_items item_created_at item_categories now times_aware
            scored_items in
        let sorted = sort_desc-perm key_of adjusted_items in
        let (diverse, e1, r1) =
          diversify_total max_sim_of preference item_embeddings (sort_desc key_of adjusted_items)
            stacks in
        let (final, e2, r2) = finish_total item_categories n diverse in
        let r = Reorders-trans r1 r2 in
        let ids : Perm (map id_of final) (map id_of scored_items) =
          rw adjusted_ids at (Perm.trans r.ids (Perm.map id_of sorted)) in
        let sizes : length (map id_of final) ≡ length (map id_of scored_items) = length-perm ids in
        let (rest, whole) = slice_to-prefix n final in
        let same_length : length final ≡ length scored_items =
          omega (arith, length-map final id_of, length-map scored_items id_of) in
        (
          slice_to n final,
          map id_of rest,
          rw (first, e1, e2, apply),
          rw same_length at (length-slice_to n final),
          rw (← map-append, whole) ids,
          λ item m. (Perm.mem_iff sorted).0 (r.members item (rw whole at (mem-append_left rest m))),
        )
