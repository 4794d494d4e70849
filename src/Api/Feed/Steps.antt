-- ===== src/Api/Feed/Steps.antt =====
-- The steps of `get_feed`: candidates, scores, and the items served.
use mathlib.Core.List.{
  Perm, Mem, mem-append, mem-append_left, mem-append_right, Mem-prop, Nodup, Nodup-append,
  map-append, map-map, append-nil,
}
use mathlib.Core.List.Perm
use mathlib.Core.Logic.Or
use nexusfeed.Prelude.{
  ℕ, zero, suc, ◌≤◌, ◌≡◌, refl, sym, ap, ◌∙◌, min, inl, inr, ◌⊎◌, Option, none, some, List, [], ◌∷◌,
  ◌++◌, String, map, length, length-map, arith, nat_eq, string_eq, Mem-take,
}
use nexusfeed.Float.{Float, zero_score}
use nexusfeed.Types.{ScoredItem, FeedItem}
use nexusfeed.World.{ok}
use nexusfeed.Retrieval.CandidateGenerator.{retrieve, trending_limit}
use nexusfeed.Retrieval.CandidateGenerator.Candidates.{
  without_score, firsts-pairs, retrieve-Extended,
}
use nexusfeed.Ranking.Ranker.{
  score, scored, score_of, scores_of, build_feature_matrix, zip_strict-total,
}
use nexusfeed.Sorting.{sort_desc, sort_desc-perm}
use nexusfeed.Ranking.Reranker.{id_of}
use nexusfeed.Experiments.Bandit.{
  Arms, Draw, available_for, slot_count, inject_loop, inject_exploration_slots,
}
use nexusfeed.Api.Feed.{slot_fraction, numbered, served, feed_items_of}
use nexusfeed.Api.Feed.Slots.{feed_items_of_lem}

-- a list is empty, or has a last item
last_cases :
    {A : Type 0} (zs : List A) → (zs ≡ []) ⊎ ((xs : List A) × (x : A) × (zs ≡ xs ++ x ∷ []))
last_cases [] = inl refl
last_cases (z ∷ zs) = elim (last_cases zs) [
  | inl e ↦ inr ([], z, ap (◌∷◌ z) e)
  | inr (xs, x, e) ↦ inr (z ∷ xs, x, ap (◌∷◌ z) e)
]

-- the numbers from `rank` on
abbrev pub ranks_from : (rank count : ℕ) → List ℕ
ranks_from rank zero = []
ranks_from rank (suc count) = rank ∷ ranks_from (suc rank) count

module _ {W : Type 0} ⦃f : Float W⦄ where
  abbrev pub item_ids : List (FeedItem W) → List String
  item_ids items = map (λ i. i.item_id) items

  pub item_ids-numbered :
      (rank : ℕ) (items : List (ScoredItem W)) → item_ids (numbered rank items) ≡ map id_of items
  unfolding numbered
  item_ids-numbered rank [] = refl
  item_ids-numbered rank (i ∷ items) = ap (◌∷◌ i.item_id) (item_ids-numbered (suc rank) items)

  pub ranks-numbered :
      (rank : ℕ) (items : List (ScoredItem W))
      → map (λ (i : FeedItem W). i.rank) (numbered rank items) ≡ ranks_from rank (length items)
  unfolding numbered
  ranks-numbered rank [] = refl
  ranks-numbered rank (i ∷ items) = ap (◌∷◌ rank) (ranks-numbered (suc rank) items)

  inject_exploration_slots_nil :
      (epsilon : W) (arms : Arms W) (draws : ℕ → Draw W) (candidate_ids : List String)
      → inject_exploration_slots epsilon arms draws [] candidate_ids slot_fraction ≡ []
  unfolding inject_exploration_slots slot_count inject_loop
  inject_exploration_slots_nil epsilon arms draws candidate_ids =
      let no_round : min 0 (length (available_for [] candidate_ids)) ≡ 0 = omega arith in
      rw (inject_exploration_slots, no_round, inject_loop) refl

  pub length-numbered :
      (rank : ℕ) (items : List (ScoredItem W)) → length (numbered rank items) ≡ length items
  unfolding numbered
  length-numbered rank [] = refl
  length-numbered rank (i ∷ items) = ap suc (length-numbered (suc rank) items)

  -- the items served are the re-ranked ones, but perhaps for the last
  pub served_most :
      (epsilon : W) (arms : Arms W) (draws : ℕ → Draw W) (final : List (ScoredItem W))
      (candidate_ids : List String)
      → Nodup (map id_of final)
      → (items left : List (ScoredItem W)) × (feed_items_of epsilon arms draws final candidate_ids
          ≡ numbered 1 items)
        × (final ≡ items ++ left)
        × (length left ≤ 1)
  unfolding feed_items_of served numbered
  served_most epsilon arms draws final candidate_ids distinct = elim (last_cases final) [
    | inl e ↦ (
      [],
      [],
      rw (e, feed_items_of, inject_exploration_slots_nil epsilon arms draws candidate_ids) refl,
      e,
      omega arith,
    )
    | inr (xs, x, e) ↦
        elim (feed_items_of_lem epsilon arms draws xs x candidate_ids (rw e at distinct)) [
          | inl (all, same) ↦ (final, [], rw e same, sym (append-nil final), omega arith)
          | inr (other, same) ↦ (xs, x ∷ [], rw e same, e, omega arith)
        ]
  ]

  -- the candidates are distinct, and were found or asked for
  pub retrieve_members :
      (found candidates : List (String × W)) (trending : List String)
      → retrieve (ok found) (some trending) none ≡ ok candidates
      → Nodup (map (λ e. e.0) found)
      → Nodup (map (λ e. e.0) candidates)
        × ((x : String)
            → Mem x (map (λ e. e.0) candidates)
            → Mem x (map (λ e. e.0) found ++ trending))
  retrieve_members found candidates trending e distinct =
      let (returned, e', all', _) = retrieve-Extended found (some trending) none in
      let same : returned ≡ candidates = let both = sym e' ∙ e in cc in
      let all = rw same at all' in
      let ids : map (λ c. c.0) candidates ≡ map (λ c. c.0) found ++ all.added =
        ap (map (λ c. c.0)) all.appended
        ∙ map-append (λ c. c.0) found (map without_score all.added)
        ∙ ap (λ z. map (λ c. c.0) found ++ z) (firsts-pairs {W = W} zero_score all.added) in
      (
        rw ids (Nodup-append.1 (distinct, all.once, λ y m k. all.fresh y k m)),
        λ x m. Or.elim Mem-prop (mem-append.0 (rw ids at m)) (mem-append_left trending) (λ k.
            mem-append_right (map (λ c. c.0) found)
              (Mem-take trending_limit trending (all.asked x k))),
      )

  pub scores_of-length :
      (model : List (List W) → List W)
      → ((rows : List (List W)) → length (model rows) ≡ length rows)
      → (rows : List (List W)) → length (scores_of model rows) ≡ length rows
  unfolding scores_of
  scores_of-length model h [] = refl
  scores_of-length model h (row ∷ rows) = h (row ∷ rows)

  pub scored-ids : (pairs : List (String × W)) → map id_of (map scored pairs) ≡ map (λ p. p.0) pairs
  scored-ids pairs = map-map _ _ pairs

  -- the ranker returns the candidates, rearranged
  pub score_total :
      (model : List (List W) → List W) (ids : List String) (feats : List (List (String × W)))
      → length ids ≡ length (scores_of model (build_feature_matrix feats))
      → (ranked : List (ScoredItem W)) × (score model ids feats ≡ some ranked)
        × Perm (map id_of ranked) ids
  unfolding score
  score_total model ids feats same =
      let (pairs, zipped, lefts, _) =
        zip_strict-total ids (scores_of model (build_feature_matrix feats)) same in
      (
        sort_desc score_of (map scored pairs),
        rw (zipped, score),
        rw (scored-ids pairs ∙ lefts) at
            (Perm.map id_of (sort_desc-perm score_of (map scored pairs))),
      )

  pub matrix-length :
      (feats : List (List (String × W))) → length (build_feature_matrix feats) ≡ length feats
  unfolding build_feature_matrix
  matrix-length feats = length-map feats _

  -- a model gives each row a score
  abbrev pub GivesScores : Option (List (List W) → List W) → Type 0
  GivesScores none = Unit {0}
  GivesScores (some model) = (rows : List (List W)) → length (model rows) ≡ length rows
