-- ===== src/Api/Feed/Slots.antt =====
-- Which items of the re-ranked feed are served, and with which ranks.
use mathlib.Core.List.{
  List, [], ◌∷◌, ◌++◌, map, map-append, append-nil, head-eq_of_cons-eq, tail-eq_of_cons-eq, Mem,
  not-mem-nil, Nodup,
}
use mathlib.Core.Logic.{◌≢◌}
use mathlib.Core.Path.{ap₂}
use mathlib.Core.Option.{some-injective}
use nexusfeed.Prelude.{
  ℕ, ◌≡◌, refl, ap, ◌∙◌, inl, inr, ◌⊎◌, false, not, some, String, arith, get, index_by,
  index_into_ne, lookup_all, lookup_all_self, elem, filter-Mem, string_eq, Option-cases,
}
use nexusfeed.Float.{Float}
use nexusfeed.Types.{ScoredItem}
use nexusfeed.Ranking.Reranker.{id_of}
use nexusfeed.Experiments.Bandit.{Arms, Draw, available_for, inject_exploration_slots}
use nexusfeed.Experiments.Bandit.Slots.{inject_exploration_slots-last}
use nexusfeed.Api.Feed.{slot_fraction, served, numbered, feed_items_of}

module _ {W : Type 0} ⦃f : Float W⦄ where
  served-append :
      (d : List (String × ScoredItem W)) (xs ys : List String)
      → served d (xs ++ ys) ≡ served d xs ++ served d ys
  unfolding served
  served-append d [] ys = refl
  served-append d (x ∷ xs) ys = elim (Option-cases (get x d)) [
    | inl missing ↦ rw (missing, served) (served-append d xs ys)
    | inr (item, found) ↦ rw (found, served) (ap (◌∷◌ item) (served-append d xs ys))
  ]

  -- the first of the items that the dictionary knows by their ids are served as they are
  served_prefix :
      (d : List (String × ScoredItem W)) (xs ys : List (ScoredItem W))
      → lookup_all d (map id_of (xs ++ ys)) ≡ some (xs ++ ys)
      → served d (map id_of xs) ≡ xs
  unfolding lookup_all served
  served_prefix d [] ys h = refl
  served_prefix d (x ∷ xs) ys h = elim (Option-cases (get x.item_id d)) [
    | inl missing ↦ absurd (ground arith)
    | inr (v, found) ↦ elim (Option-cases (lookup_all d (map id_of (xs ++ ys)))) [
      | inl missing ↦ absurd (ground arith)
      | inr (vs, rest) ↦
          let both : v ∷ vs ≡ x ∷ (xs ++ ys) =
            some-injective _ _ (rw (lookup_all, found, rest) at h) in
          rw (found, served)
            (ap₂ ◌∷◌ (head-eq_of_cons-eq both)
              (served_prefix d xs ys (rest ∙ ap some (tail-eq_of_cons-eq both))))
    ]
  ]

  served_unknown :
      (xs : List (ScoredItem W)) (fid : String)
      → elem fid (map id_of xs) ≡ false
      → served (index_by id_of xs) (fid ∷ []) ≡ []
  unfolding index_by served get
  served_unknown xs fid h = rw (served, index_into_ne id_of fid xs [] h) refl

  module _ (epsilon : W) (arms : Arms W) (draws : ℕ → Draw W) where
    module _ (xs : List (ScoredItem W)) (x : ScoredItem W) (candidate_ids : List String) where
      abbrev feed : List (ScoredItem W)
      feed = xs ++ x ∷ []

      abbrev outside : List String
      outside = available_for (map id_of feed) candidate_ids

      split_ids : map id_of feed ≡ map id_of xs ++ x.item_id ∷ []
      split_ids = map-append id_of xs (x ∷ [])

      -- the bandit's choice of the last slot, as the handler serves it
      with_last :
          (last : String)
          → inject_exploration_slots epsilon arms draws
              (map id_of xs ++ x.item_id ∷ [])
              candidate_ids
              slot_fraction
            ≡ map id_of xs ++ last ∷ []
          → feed_items_of epsilon arms draws feed candidate_ids
            ≡ numbered 1 (served (index_by id_of feed) (map id_of xs ++ last ∷ []))
      unfolding feed_items_of
      with_last last same =
          ap (λ ids. numbered 1 (served (index_by id_of feed) ids))
            (ap (λ ids. inject_exploration_slots epsilon arms draws ids candidate_ids slot_fraction)
                split_ids
              ∙ same)

      served_whole :
          Nodup (map id_of feed)
          → served (index_by id_of feed) (map id_of xs ++ x.item_id ∷ []) ≡ feed
      served_whole distinct = rw (← split_ids) (
          served_prefix (index_by id_of feed) feed []
            (rw append-nil (lookup_all_self id_of feed distinct)))

      served_shorter :
          (last : String)
          → Nodup (map id_of feed)
          → elem last (map id_of feed) ≡ false
          → served (index_by id_of feed) (map id_of xs ++ last ∷ []) ≡ xs
      served_shorter last distinct unknown =
          served-append (index_by id_of feed) (map id_of xs) (last ∷ [])
          ∙ ap₂ ◌++◌
              (served_prefix (index_by id_of feed) xs (x ∷ [])
                (lookup_all_self id_of feed distinct))
              (served_unknown feed last unknown)
          ∙ append-nil xs

      -- A re-ranked feed with distinct ids is served whole, with the ranks 1, 2, …, when every
      -- candidate is in it. When some candidate is not, the feed is served without its last item, and
      -- nothing is served in its place: an item that the bandit picks has no entry in `by_id`.
      pub feed_items_of_lem :
          Nodup (map id_of feed)
          → ((outside ≡ [])
              × (feed_items_of epsilon arms draws feed candidate_ids ≡ numbered 1 feed))
            ⊎ ((outside ≢ [])
                × (feed_items_of epsilon arms draws feed candidate_ids ≡ numbered 1 xs))
      feed_items_of_lem distinct =
          let (last, same, from) =
            inject_exploration_slots-last arms epsilon draws (map id_of xs) x.item_id candidate_ids
              slot_fraction in
          by_last last (with_last last same) (rw (← split_ids) at from)
        where
          by_last :
              (last : String)
              → feed_items_of epsilon arms draws feed candidate_ids
                ≡ numbered 1 (served (index_by id_of feed) (map id_of xs ++ last ∷ []))
              → ((outside ≡ []) × (last ≡ x.item_id))
                ⊎ (Mem last candidate_ids × (elem last (map id_of feed) ≡ false))
              → ((outside ≡ [])
                  × (feed_items_of epsilon arms draws feed candidate_ids ≡ numbered 1 feed))
                ⊎ ((outside ≢ [])
                    × (feed_items_of epsilon arms draws feed candidate_ids ≡ numbered 1 xs))
          by_last last is (inl (e, kept)) =
              inl (e, is ∙ ap (numbered 1) (rw kept (served_whole distinct)))
          by_last last is (inr (m, unknown)) = inr (
            λ h. not-mem-nil (
                rw h at (
                  filter-Mem (λ c. not (elem c (map id_of feed))) candidate_ids m
                    (ap not unknown))),
            is ∙ ap (numbered 1) (served_shorter last distinct unknown),
          )
