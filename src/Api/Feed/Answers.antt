-- ===== src/Api/Feed/Answers.antt =====
-- What `get_feed` answers, from the services to the response and the logged impression.
use mathlib.Core.List.{Perm, Mem, mem-append_left, Nodup, Nodup-append, map-append}
use mathlib.Core.List.Perm
use nexusfeed.Prelude.{
  ℕ, ◌+◌, ◌≤◌, ◌≡◌, refl, ap, min, inl, inr, Option, none, some, List, [], ◌++◌, String, map,
  length, length-append, length-map, length-perm, arith, Bool, nat_eq, filter, string_eq,
}
use nexusfeed.Prelude.Int.{pos}
use nexusfeed.Float.{Float}
use nexusfeed.Redis.{Redis}
use nexusfeed.Types.{Uuid, ScoredItem, ExperimentAssignment}
use nexusfeed.Experiments.Manager.{get_assignment}
use nexusfeed.World.{World, Message, ◌>>=◌, ok, Result-cases}
use nexusfeed.Features.OnlineStore.{get_trending, batch_get_item_features, get_recent_items}
use nexusfeed.Features.UserFeatures.{get_embedding}
use nexusfeed.Retrieval.CandidateGenerator.{retrieve}
use nexusfeed.Ranking.Ranker.{scored, build_feature_matrix}
use nexusfeed.Ranking.Reranker.{id_of}
use nexusfeed.Ranking.Reranker.Size.{apply_total, Stacks-nil}
use nexusfeed.Ranking.Reranker.Adjusted.{IsAware-nil}
use nexusfeed.Api.Feed.{
  Services, FeedResponse, impression_of, response_of, get_feed, faiss_top_k, rank_candidates,
  features_of, default_experiment_name, numbered,
}
use nexusfeed.Api.Feed.Steps.{
  ranks_from, item_ids, item_ids-numbered, ranks-numbered, length-numbered, served_most,
  retrieve_members, scores_of-length, scored-ids, score_total, matrix-length, GivesScores,
}

module _ {W : Type 0} ⦃f : Float W⦄ where
  module _ {V : Type 0} (r : Redis W) (app : Services W V r) where
    rank_candidates_total :
        (model : Option (List (List W) → List W)) (candidates item_scores : List (String × W))
        (w : World r.Store)
        → GivesScores model
        → (ranked : List (ScoredItem W)) × (rank_candidates r app model candidates item_scores w
            ≡ (w, ok ranked))
          × Perm (map id_of ranked) (map (λ c. c.0) candidates)
    rank_candidates_total none candidates item_scores w h =
        (map scored candidates, refl, rw (scored-ids candidates) (Perm.refl _))
    rank_candidates_total (some m) candidates item_scores w h =
        let feats = map (features_of item_scores) candidates in
        let (ranked, e, p) = score_total m (map (λ c. c.0) candidates) feats (
          omega (
            arith,
            scores_of-length m h (build_feature_matrix feats),
            matrix-length feats,
            length-map candidates (features_of item_scores),
            length-map candidates (λ c. c.0),
          )) in
        (ranked, rw e refl, p)

    -- the answer to a request for `n` items, from what the index found, the trending items and the
    -- candidates made of them
    pub record IsAnswer (user_id : Uuid) (n : ℕ) (is_cold_start : Bool)
        (found trending candidates : List (String × W)) (answer : FeedResponse W × Message)
        : Type 0 where
      pub at_most : length answer.0.items ≤ n
      pub at_least : min n (length candidates) ≤ length answer.0.items + 1
      pub ranks : map (λ i. i.rank) answer.0.items ≡ ranks_from 1 (length answer.0.items)
      pub distinct : Nodup (item_ids answer.0.items)
      pub members :
          (x : String)
          → Mem x (item_ids answer.0.items)
          → Mem x (map (λ e. e.0) found ++ map (λ t. t.0) trending)
      pub cold_start : answer.0.is_cold_start ≡ is_cold_start
      pub logged : answer.1 ≡ impression_of r app user_id answer.0.items

    numbered-IsAnswer :
        (user_id : Uuid) (n : ℕ) (cold : Bool) (found trending candidates : List (String × W))
        (a : Option ExperimentAssignment) (items left : List (ScoredItem W))
        → length items + length left ≡ min n (length candidates)
        → length left ≤ 1
        → Nodup (map id_of items)
        → ((x : String)
            → Mem x (map id_of items)
            → Mem x (map (λ e. e.0) found ++ map (λ t. t.0) trending))
        → IsAnswer user_id n cold found trending candidates (
          response_of r app user_id (numbered 1 items) cold a,
          impression_of r app user_id (numbered 1 items),
        )
    numbered-IsAnswer user_id n cold found trending candidates a items left size short distinct
          members =
        record {
          at_most = omega (arith, length-numbered 1 items);
          at_least = omega (arith, length-numbered 1 items);
          ranks = rw (length-numbered 1 items) (ranks-numbered 1 items);
          distinct = rw (item_ids-numbered 1 items) distinct;
          members = λ x m. members x (rw (item_ids-numbered 1 items) at m);
          cold_start = refl;
          logged = refl;
        }

    -- If the embedding of the user, the trending items, the search of the index, the features of the
    -- candidates and the recent items are returned, what the search found is distinct, and a loaded
    -- model gives each row a score, then `get_feed` answers. It shows at most `n` items, and
    -- at most one fewer than the lesser of `n` and the number of candidates; their ranks are 1, 2, …;
    -- no item is shown twice, and each was found by the search or is trending; the cold start is told
    -- as the embedding has it; and the impression that is logged has the items shown.
    pub get_feed_total :
        (user_id : Uuid) (n : ℕ) (w w1 w2 w3 w4 : World r.Store) (embedded : List W × Bool)
        (trending found candidates item_scores : List (String × W)) (recent : List String)
        → get_embedding r app.numerics app.find_user user_id w ≡ (w1, ok embedded)
        → get_trending r 10 w1 ≡ (w2, ok trending)
        → app.search embedded.0 faiss_top_k ≡ ok found
        → retrieve (ok found) (some (map (λ t. t.0) trending)) none ≡ ok candidates
        → batch_get_item_features r (filter app.is_uuid (map (λ c. c.0) candidates)) w2
          ≡ (w3, ok item_scores)
        → get_recent_items r user_id 50 w3 ≡ (w4, ok recent)
        → Nodup (map (λ e. e.0) found)
        → GivesScores app.model
        → (answer : FeedResponse W × Message) × ((get_feed r app user_id (pos n) w).1 ≡ ok answer)
          × IsAnswer user_id n embedded.1 found trending candidates answer
    unfolding get_feed
    get_feed_total user_id n w w1 w2 w3 w4 embedded trending found candidates item_scores recent e1
          e2 e3 e4 e5 e6 nodup gives =
        let (unique, members) =
          retrieve_members found candidates (map (λ t. t.0) trending) e4 nodup in
        let (ranked, e7, p) = rank_candidates_total app.model candidates item_scores w3 gives in
        let (final, dropped, e8, len, kept, _) =
          apply_total app.max_sim_of ranked (pos n) recent [] [] [] (f.lit 7 10) w4.clock
            IsAware-nil (Stacks-nil app.max_sim_of) in
        let ids : Perm (map id_of final ++ dropped) (map (λ c. c.0) candidates) =
          Perm.trans kept p in
        let final_distinct : Nodup (map id_of final) =
          (Nodup-append.0 ((Perm.Nodup-iff ids).1 unique)).0 in
        let (items, left, e10, split, short) =
          served_most app.epsilon app.arms app.draws final (map (λ c. c.0) candidates)
            final_distinct in
        let (a, answered) : (a : Option ExperimentAssignment) × ((get_feed r app user_id (pos n)
                w).1
              ≡ ok (
                response_of r app user_id (numbered 1 items) embedded.1 a,
                impression_of r app user_id (numbered 1 items),
              )) =
          simp (get_feed, ◌>>=◌, e1, e2, e3, e4, e5, e7, e6, e8)
            (elim (Result-cases
              (get_assignment r app.sha256 app.experiments user_id default_experiment_name w4).1) [
                | inl (b, e9) ↦ (some b, rw (e9, e10) refl)
                | inr (x, e9) ↦ (none, rw (e9, e10) refl)
              ]) in
        (
          (
            response_of r app user_id (numbered 1 items) embedded.1 a,
            impression_of r app user_id (numbered 1 items),
          ),
          answered,
          numbered-IsAnswer user_id n embedded.1 found trending candidates a items left
              (omega (
                arith,
                ap length split,
                length-append items left,
                length-perm p,
                len,
                length-map ranked id_of,
                length-map candidates (λ c. c.0),
              ))
              short (Nodup-append.0 (rw (split, map-append) at final_distinct)).0
              (λ x m. members x (
                (Perm.mem_iff ids).0 (
                  mem-append_left dropped
                    (rw (split, map-append) (mem-append_left (map id_of left) m))))),
        )
