-- ===== src/Explanations.antt =====
-- nexusfeed/explainability/shap_explainer.py. shap is not code of the repository: `shap_values` is
-- its tree explainer. `magnitude` is `np.abs`, and the mean of a fraction is a ratio of counts.
use nexusfeed.Prelude.{
  ℕ, ◌+◌, Option, none, some, List, [], ◌∷◌, map, String, take, get_default, get_or, length, filter,
  string_eq, ◌==◌, if◌then◌else◌,
}
use nexusfeed.Prelude.Partial.{◌>>=◌}
use nexusfeed.Float.{Float, zero_score}
use nexusfeed.Sorting.{sort_desc}
use nexusfeed.Ranking.Ranker.{ranking_feature_names, zip_strict}

abbrev pub feature_explanations : List (String × String)
feature_explanations =
    ("user_item_dot_product", "you viewed similar content recently")
    ∷ ("item_freshness_score", "it's new and trending right now")
    ∷ ("user_item_category_affinity", "you engage a lot with this category")
    ∷ ("time_decay", "it matches what you usually browse at this time of day")
    ∷ ("diversity_score", "it broadens your feed with something different")
    ∷ ("historical_ctr", "other users like it a lot")
    ∷ ("popularity_score", "it's currently popular across NexusFeed")
    ∷ []

-- what the developer's dashboard is given
pub record Attribution (W : Type 0) : Type 0 where
  pub item_id : String
  pub model_version : String
  pub rank : ℕ
  pub feature_contributions : List (String × W)
  pub top_features : List (String × W)

-- `RANKING_FEATURE_NAMES.index(name)`, from position `i` on; `none` is its ValueError
unfoldable pub index_of : (name : String) (i : ℕ) → List String → Option ℕ
index_of name i [] = none
index_of name i (x ∷ xs) = if x == name then some i else index_of name (i + 1) xs

module _ {W : Type 0} ⦃f : Float W⦄ (magnitude : W → W) where
  -- numpy's `argsort` does not say in which order equal values stand; here it is the given one
  unfoldable pub top_features : (shap_values : List W) (top_k : ℕ) → Option (List (String × W))
  unfolding zip_strict sort_desc
  top_features shap_values top_k = do
    pairs ← zip_strict ranking_feature_names shap_values
    some (take top_k (sort_desc (λ p. magnitude p.1) pairs))

  abbrev pub first_name : List (String × W) → Option String
  first_name [] = none
  first_name ((name, value) ∷ pairs) = some name

  unfoldable pub user_facing_explanation : (shap_values : List W) → Option String
  unfolding top_features get_default
  user_facing_explanation shap_values = do
    top ← top_features shap_values 1
    top_feature ← first_name top
    some (get_default top_feature "it matches your personalization profile" feature_explanations)

  unfoldable pub developer_attribution :
      (item_id : String) (shap_values : List W) (model_version : String) (rank : ℕ)
      → Option (Attribution W)
  unfolding top_features zip_strict
  developer_attribution item_id shap_values model_version rank = do
    feature_contributions ← zip_strict ranking_feature_names shap_values
    top ← top_features shap_values 5
    some (record {
      item_id = item_id;
      model_version = model_version;
      rank = rank;
      feature_contributions = feature_contributions;
      top_features = top;
    })

  -- The share of the rows in which the feature's magnitude is above the threshold. The rows have a
  -- value for every name; `sum` is numpy's. `none` is the ValueError of an unknown feature.
  unfoldable pub detect_false_attribution :
      (sum : List W → W) (shap_values_batch : List (List W)) (dominant_feature : String)
      (threshold : W)
      → Option W
  unfolding index_of filter
  detect_false_attribution sum shap_values_batch dominant_feature threshold = do
    idx ← index_of dominant_feature 0 ranking_feature_names
    let share = λ (row : List W).
        f.div (magnitude (get_or row idx zero_score))
          (f.add (sum (map magnitude row)) (f.lit 1 1_000_000_000))
    let above = filter (λ row. f.lt threshold (share row)) shap_values_batch
    some (f.div (f.lit (length above) 1) (f.lit (length shap_values_batch) 1))
