-- ===== src/Ranking/Ranker.antt =====
-- nexusfeed/ranking/ranker.py: `Ranker`. The model (a LightGBM booster or its ONNX export) is the
-- function `model_score` from the feature rows to an array of scores; that numpy rounds the rows to
-- 32-bit floats is part of it.
use mathlib.Core.List.{Perm}
use nexusfeed.Prelude.{
  ◌≡◌, refl, ap, false, Option, none, some, List, [], ◌∷◌, String, map, length, get_default, arith,
  string_eq,
}
use nexusfeed.Float.{Float, zero_score, IsOrdered}
use nexusfeed.Sorting.{sort_desc, sort_desc-perm, sort_desc-IsDescending, IsDescending}
use nexusfeed.Types.{ScoredItem}

abbrev pub ranking_feature_names : List String
ranking_feature_names =
    "user_item_dot_product" ∷ "item_freshness_score" ∷ "user_item_category_affinity" ∷ "time_decay"
    ∷ "diversity_score" ∷ "historical_ctr" ∷ "popularity_score" ∷ []

-- `zip(xs, ys, strict=True)`; `none` is its ValueError
unfoldable pub zip_strict {ℓ κ} :
    {A : Type ℓ} {B : Type κ} → List A → List B → Option (List (A × B))
zip_strict [] [] = some []
zip_strict (x ∷ xs) (y ∷ ys) = elim (zip_strict xs ys) [
  | none ↦ none
  | some ps ↦ some ((x, y) ∷ ps)
]
zip_strict _ _ = none

module _ {ℓ κ} {A : Type ℓ} {B : Type κ} where
  pub zip_strict-total :
      (xs : List A) (ys : List B)
      → length xs ≡ length ys
      → (ps : List (A × B)) × (zip_strict xs ys ≡ some ps)
        × (map (λ p. p.0) ps ≡ xs)
        × (map (λ p. p.1) ps ≡ ys)
  unfolding zip_strict
  zip_strict-total [] [] h = ([], refl, refl, refl)
  zip_strict-total [] (y ∷ ys) h = absurd (omega arith)
  zip_strict-total (x ∷ xs) [] h = absurd (omega arith)
  zip_strict-total (x ∷ xs) (y ∷ ys) h =
      let (ps, zipped, lefts, rights) = zip_strict-total xs ys (omega arith) in
      ((x, y) ∷ ps, rw (zipped, zip_strict), ap (◌∷◌ x) lefts, ap (◌∷◌ y) rights)

  pub zip_strict_mismatch :
      (xs : List A) (ys : List B) → ¬ (length xs ≡ length ys) → zip_strict xs ys ≡ none
  unfolding zip_strict
  zip_strict_mismatch [] [] h = absurd (h refl)
  zip_strict_mismatch [] (y ∷ ys) h = refl
  zip_strict_mismatch (x ∷ xs) [] h = refl
  zip_strict_mismatch (x ∷ xs) (y ∷ ys) h =
      rw (zip_strict_mismatch xs ys (λ e. h (omega arith)), zip_strict)

module _ {W : Type 0} ⦃f : Float W⦄ where
  abbrev pub scored : String × W → ScoredItem W
  scored (item_id, score) = record {
    item_id = item_id;
    score = score;
    category = none;
    is_trending = false;
    freshness_boosted = false;
    explanation = none;
  }

  abbrev pub score_of : ScoredItem W → W
  score_of i = i.score

  unfoldable pub build_feature_matrix : List (List (String × W)) → List (List W)
  unfolding get_default
  build_feature_matrix candidate_features =
      map (λ feat. map (λ name. get_default name zero_score feat) ranking_feature_names)
        candidate_features

  module _ (model_score : List (List W) → List W) where
    -- `self.model.score(matrix) if len(matrix) else np.array([])`
    unfoldable pub scores_of : List (List W) → List W
    scores_of [] = []
    scores_of (row ∷ rows) = model_score (row ∷ rows)

    unfoldable pub score : List String → List (List (String × W)) → Option (List (ScoredItem W))
    unfolding build_feature_matrix scores_of zip_strict sort_desc
    score candidate_ids candidate_features =
        let scores = scores_of (build_feature_matrix candidate_features) in
        elim (zip_strict candidate_ids scores) [
          | none ↦ none
          | some pairs ↦ some (sort_desc score_of (map scored pairs))
        ]

    -- If there are as many features as candidates and the model returns one score for each row,
    -- `score` returns the candidates with the model's scores, rearranged so that scores descend.
    pub score_lem :
        IsOrdered W
        → (candidate_ids : List String) (candidate_features : List (List (String × W)))
        → length candidate_ids ≡ length (scores_of (build_feature_matrix candidate_features))
        → (pairs : List (String × W)) × (ranked : List (ScoredItem W)) × (score candidate_ids
              candidate_features
            ≡ some ranked)
          × (map (λ p. p.0) pairs ≡ candidate_ids)
          × (map (λ p. p.1) pairs ≡ scores_of (build_feature_matrix candidate_features))
          × Perm ranked (map scored pairs)
          × IsDescending score_of ranked
    unfolding score
    score_lem laws ids feats h =
        let (pairs, zipped, lefts, rights) =
          zip_strict-total ids (scores_of (build_feature_matrix feats)) h in
        (
          pairs,
          sort_desc score_of (map scored pairs),
          rw (zipped, score),
          lefts,
          rights,
          sort_desc-perm score_of (map scored pairs),
          sort_desc-IsDescending score_of laws (map scored pairs),
        )

    -- A model that returns another number of scores makes `score` raise.
    pub score_mismatch :
        (candidate_ids : List String) (candidate_features : List (List (String × W)))
        → ¬ (length candidate_ids ≡ length (scores_of (build_feature_matrix candidate_features)))
        → score candidate_ids candidate_features ≡ none
    unfolding score
    score_mismatch ids feats h =
        rw (zip_strict_mismatch ids (scores_of (build_feature_matrix feats)) h, score)
