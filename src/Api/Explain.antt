-- ===== src/Api/Explain.antt =====
-- nexusfeed/api/routers/explain.py.
use nexusfeed.Prelude.{Option, none, some, List, [], ◌∷◌, map, String, get_default, string_eq}
use nexusfeed.Float.{Float, zero_score}
use nexusfeed.Redis.{Redis}
use nexusfeed.Types.{Uuid}
use nexusfeed.World.{M, Exn, pure, fail, ◌>>=◌}
use nexusfeed.Features.OnlineStore.{get_item_score}
use nexusfeed.Ranking.Ranker.{ranking_feature_names}
use nexusfeed.Explanations.{Attribution, user_facing_explanation, developer_attribution}

-- the answer without an explainer, which holds the features, and the one with it
pub data Explanation (W : Type 0) : Type 0 where
  snapshot :
      (user_id item_id : Uuid) (explanation : String) (feature_contributions : List (String × W))
      (note : String)
      → Explanation W
  attributed :
      (user_id item_id : Uuid) (explanation : String) (developer_attribution : Attribution W)
      → Explanation W

module _ {W : Type 0} ⦃f : Float W⦄ (r : Redis W) (magnitude : W → W) where
  abbrev pub features_for : (item_score : W) → List (String × W)
  features_for item_score =
      ("user_item_dot_product", item_score)
      ∷ ("item_freshness_score", item_score)
      ∷ ("user_item_category_affinity", f.lit 5 10)
      ∷ ("time_decay", f.lit 1 1)
      ∷ ("diversity_score", f.lit 5 10)
      ∷ ("historical_ctr", zero_score)
      ∷ ("popularity_score", item_score)
      ∷ []

  abbrev pub answer_with : {A : Type 0} → Option A → M r.Store A
  answer_with none = fail Exn.value_error
  answer_with (some a) = pure a

  -- `shap_values` is what the explainer computes for one row of features
  abbrev pub attribute :
      (shap_values : List W → List W) (model_version : String) (user_id item_id : Uuid)
      (features : List (String × W))
      → M r.Store (Explanation W)
  attribute shap_values model_version user_id item_id features =
      let row = map (λ name. get_default name zero_score features) ranking_feature_names in
      do
        explanation ← answer_with (user_facing_explanation magnitude (shap_values row))
        attribution ←
            answer_with (developer_attribution magnitude item_id (shap_values row) model_version 0)
        pure (Explanation.attributed user_id item_id explanation attribution)

  abbrev pub explain_with :
      (explainer : Option (List W → List W)) (model_version : String) (user_id item_id : Uuid)
      (features : List (String × W))
      → M r.Store (Explanation W)
  explain_with none model_version user_id item_id features = pure (
      Explanation.snapshot user_id item_id
        "Recommended based on your recent activity and item popularity." features
        "SHAP explainer not loaded — showing raw feature snapshot instead.")
  explain_with (some shap_values) model_version user_id item_id features =
      attribute shap_values model_version user_id item_id features

  unfoldable pub explain_recommendation :
      (explainer : Option (List W → List W)) (model_version : String) (user_id item_id : Uuid)
      → M r.Store (Explanation W)
  explain_recommendation explainer model_version user_id item_id = do
    item_score ← get_item_score r item_id
    explain_with explainer model_version user_id item_id (features_for item_score)
