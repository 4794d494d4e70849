-- ===== src/Api/Feed.antt =====
-- nexusfeed/api/routers/feed.py: `get_feed`. The services that the handler finds in `app.state` are
-- the fields of `Services`. The background task that logs the impression is given as its message;
-- timing, metrics and the request id are left out.
pub mod Slots
pub mod Steps
pub mod Answers
use nexusfeed.Prelude.{
  ℕ, suc, Bool, true, false, Option, none, some, List, [], ◌∷◌, map, String, filter, get,
  get_default, index_by, string_eq, if◌then◌else◌,
}
use nexusfeed.Prelude.Int.{ℤ}
use nexusfeed.Float.{Float, Fraction, zero_score}
use nexusfeed.Types.{Uuid, Time, ScoredItem, FeedItem, ExperimentAssignment}
use nexusfeed.Redis.{Redis}
use nexusfeed.World.{
  World, Message, Payload, M, Exn, Result, ok, raise, pure, fail, ◌>>=◌, ◌>>◌, catch,
}
use nexusfeed.Features.OfflineStore.{User}
use nexusfeed.Features.OnlineStore.{get_trending, batch_get_item_features, get_recent_items}
use nexusfeed.Features.UserFeatures.{Numerics, get_embedding}
use nexusfeed.Retrieval.CandidateGenerator.{retrieve}
use nexusfeed.Ranking.Ranker.{score, scored}
use nexusfeed.Ranking.Reranker.{apply, id_of}
use nexusfeed.Experiments.Bandit.{Arms, Draw, inject_exploration_slots}
use nexusfeed.Experiments.Bucketing.{Digest}
use nexusfeed.Experiments.Repository.{Experiment}
use nexusfeed.Experiments.Manager.{get_assignment}

-- settings
abbrev pub faiss_top_k : ℕ
faiss_top_k = 1000

abbrev pub default_experiment_name : String
default_experiment_name = "two_tower_v1_vs_baseline"

abbrev pub topic_impressions : String
topic_impressions = "impressions"

-- `bandit_epsilon`, as the fraction of the slots
abbrev pub slot_fraction : Fraction
slot_fraction = record { numerator = 1; denominator = 10 }

module _ {W : Type 0} ⦃f : Float W⦄ where
  -- one entry of `candidate_features`
  abbrev pub features_of : List (String × W) → String × W → List (String × W)
  features_of item_scores (cid, score) =
      ("user_item_dot_product", score)
      ∷ ("item_freshness_score", get_default cid zero_score item_scores)
      ∷ ("user_item_category_affinity", f.lit 1 2)
      ∷ ("time_decay", f.lit 1 1)
      ∷ ("diversity_score", f.lit 1 2)
      ∷ ("historical_ctr", zero_score)
      ∷ ("popularity_score", get_default cid zero_score item_scores)
      ∷ []

  -- `[by_id.get(fid) for fid in final_ids if fid in by_id]`
  unfoldable pub served : List (String × ScoredItem W) → List String → List (ScoredItem W)
  served by_id [] = []
  served by_id (fid ∷ final_ids) =
      let rest = served by_id final_ids in
      elim (get fid by_id) [ none ↦ rest | some item ↦ item ∷ rest ]

  -- the `FeedItem`s, with ranks from `rank` on
  unfoldable pub numbered : (rank : ℕ) → List (ScoredItem W) → List (FeedItem W)
  numbered rank [] = []
  numbered rank (item ∷ items) =
      record {
        item_id = item.item_id;
        score = item.score;
        rank = rank;
        category = item.category;
        is_trending = item.is_trending;
        explanation = none;
      }
      ∷ numbered (suc rank) items

  -- from `final_ids` to `feed_items`
  unfoldable pub feed_items_of :
      (epsilon : W) (arms : Arms W) (draws : ℕ → Draw W)
      → (final_items : List (ScoredItem W)) (candidate_ids : List String) → List (FeedItem W)
  unfolding index_by
  feed_items_of epsilon arms draws final_items candidate_ids = numbered 1 (
      served (index_by id_of final_items) (
        inject_exploration_slots epsilon arms draws (map id_of final_items) candidate_ids
          slot_fraction))

pub record FeedResponse (W : Type 0) : Type 0 where
  pub user_id : Uuid
  pub items : List (FeedItem W)
  pub model_version : Option String
  pub experiment_bucket : Option ℤ
  pub experiment_variant : Option String
  pub is_cold_start : Bool

pub record Services (W V : Type 0) (r : Redis W) : Type 0 where
  pub numerics : Numerics W
  -- the row of the users table
  pub find_user : Uuid → Result (Option User)
  -- `FaissIndex.search` of the loaded index
  pub search : List W → ℕ → Result (List (String × W))
  -- `_is_uuid`: the constructor of UUID takes the text
  pub is_uuid : String → Bool
  -- the model of the ranker, if one is loaded
  pub model : Option (List (List W) → List W)
  pub max_sim_of : List V → Option (List ℕ → ℕ → W)
  pub epsilon : W
  pub arms : Arms W
  pub draws : ℕ → Draw W
  pub sha256 : Digest
  pub experiments : List Experiment
  pub model_version : Option String

-- a result of the pure components, and an exception where they have none
abbrev pub lift : {S A : Type 0} → Result A → M S A
lift (ok a) w = (w, ok a)
lift (raise e) w = (w, raise e)

abbrev pub or_raise : {S A : Type 0} → Exn → Option A → M S A
or_raise e none w = (w, raise e)
or_raise e (some a) w = (w, ok a)

module _ {W V : Type 0} ⦃f : Float W⦄ (r : Redis W) (app : Services W V r) where
  -- `ranker.score(...) if ranker else [_fallback_scored_item(...)]`
  abbrev pub rank_candidates :
      Option (List (List W) → List W)
      → List (String × W)
      → List (String × W)
      → M r.Store (List (ScoredItem W))
  rank_candidates none candidates item_scores = pure (map scored candidates)
  rank_candidates (some model) candidates item_scores =
      or_raise Exn.value_error
        (score model (map (λ c. c.0) candidates) (map (features_of item_scores) candidates))

  -- `Reranker().apply(ranked, n=n, seen_items=set(recent_items))`
  abbrev pub rerank : List (ScoredItem W) → ℤ → List String → M r.Store (List (ScoredItem W))
  rerank ranked n recent_items w =
      or_raise Exn.value_error
        (apply app.max_sim_of ranked n recent_items [] [] [] (f.lit 7 10) w.clock) w

  -- `try: ... except Exception: assignment = None`
  abbrev pub assignment_or_none : Uuid → M r.Store (Option ExperimentAssignment)
  assignment_or_none user_id =
      catch
        (do
          a ← get_assignment r app.sha256 app.experiments user_id default_experiment_name
          pure (some a))
        (λ e. pure none)

  abbrev pub response_of :
      Uuid → List (FeedItem W) → Bool → Option ExperimentAssignment → FeedResponse W
  response_of user_id items is_cold_start assignment = record {
    user_id = user_id;
    items = items;
    model_version = app.model_version;
    experiment_bucket = elim assignment [ none ↦ none | some a ↦ some a.bucket ];
    experiment_variant = elim assignment [ none ↦ none | some a ↦ some a.variant ];
    is_cold_start = is_cold_start;
  }

  -- the message of the background task
  abbrev pub impression_of : Uuid → List (FeedItem W) → Message
  impression_of user_id items = record {
    topic = topic_impressions;
    value = Payload.impression user_id (map (λ i. i.item_id) items);
    key = user_id;
  }

  -- the response, and the message that is sent in the background
  unfoldable pub get_feed : Uuid → (n : ℤ) → M r.Store (FeedResponse W × Message)
  unfolding feed_items_of
  get_feed user_id n = do
    embedded ← get_embedding r app.numerics app.find_user user_id
    trending ← get_trending r 10
    candidates ←
        lift (retrieve (app.search embedded.0 faiss_top_k) (some (map (λ t. t.0) trending)) none)
    item_scores ← batch_get_item_features r (filter app.is_uuid (map (λ c. c.0) candidates))
    ranked ← rank_candidates app.model candidates item_scores
    recent_items ← get_recent_items r user_id 50
    final_items ← rerank ranked n recent_items
    assignment ← assignment_or_none user_id
    (let feed_items =
          feed_items_of app.epsilon app.arms app.draws final_items (map (λ c. c.0) candidates) in
        pure
          (response_of user_id feed_items embedded.1 assignment, impression_of user_id feed_items))
