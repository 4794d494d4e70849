-- ===== src/Models/Evaluate.antt =====
-- nexusfeed/models/evaluate.py. numpy is not code of the repository: `Numpy` holds its functions that
-- are called. A relevance is a count, and sklearn's `roc_auc_score` is not modelled.
use nexusfeed.Prelude.{
  ℕ, zero, suc, ◌+◌, ◌*◌, ◌-◌, Option, none, some, List, [], ◌∷◌, map, String, take, length, ltb,
  if◌then◌else◌,
}
use nexusfeed.Float.{Float, zero_score, counts}
use nexusfeed.Sorting.{sort_desc}

pub record Numpy (W : Type 0) : Type 0 where
  pub sum : List W → W
  pub mean : List W → W
  pub log2 : W → W
  pub dot : List W → List W → W
  -- `x / (np.linalg.norm(x) + 1e-9)`
  pub normalize : List W → List W

module _ {W : Type 0} ⦃f : Float W⦄ (numpy : Numpy W) where
  -- `np.mean(xs)`, with 0.0 for no scores
  abbrev pub mean_or_zero : List W → W
  mean_or_zero [] = zero_score
  mean_or_zero (x ∷ xs) = numpy.mean (x ∷ xs)

  -- the terms of `dcg`, from index `idx` on
  unfoldable pub gains : (idx : ℕ) → List ℕ → List W
  gains idx [] = []
  gains idx (rel ∷ rels) =
      f.div (f.lit rel 1) (numpy.log2 (f.lit (idx + 2) 1)) ∷ gains (idx + 1) rels

  unfoldable pub dcg : (k : ℕ) → List ℕ → W
  unfolding gains
  dcg k rels = numpy.sum (gains 0 (take k rels))

  unfoldable pub user_ndcg : (k : ℕ) → List ℕ → W
  unfolding dcg sort_desc
  user_ndcg k rels =
      let ideal_dcg = dcg k (sort_desc ⦃f = counts⦄ (λ rel. rel) rels) in
      if f.lt zero_score ideal_dcg then f.div (dcg k rels) ideal_dcg else zero_score

  unfoldable pub ndcg_at_k : List (List ℕ) → (k : ℕ) → W
  unfolding user_ndcg
  ndcg_at_k relevances k = mean_or_zero (map (user_ndcg k) relevances)

  -- `next((i + 1 for i, r in enumerate(rels) if r > 0), None)`, from rank `rank` on
  unfoldable pub first_rank : (rank : ℕ) → List ℕ → Option ℕ
  first_rank rank [] = none
  first_rank rank (r ∷ rels) = if ltb 0 r then some rank else first_rank (rank + 1) rels

  abbrev pub reciprocal : Option ℕ → W
  reciprocal none = zero_score
  reciprocal (some rank) = f.div (f.lit 1 1) (f.lit rank 1)

  unfoldable pub mrr : List (List ℕ) → W
  unfolding first_rank
  mrr relevances = mean_or_zero (map (λ rels. reciprocal (first_rank 1 rels)) relevances)

  unfoldable pub catalog_coverage :
      (recommended_item_ids : List String) (total_catalog_size : ℕ) → W
  catalog_coverage recommended_item_ids zero = zero_score
  catalog_coverage recommended_item_ids (suc n) =
      f.div (f.lit (length recommended_item_ids) 1) (f.lit (suc n) 1)

  -- the rows of `normed @ normed.T`
  unfoldable pub similarities : List (List W) → List (List W) → List W
  similarities [] normed = []
  similarities (row ∷ rows) normed =
      numpy.sum (map (numpy.dot row) normed) ∷ similarities rows normed

  unfoldable pub intra_list_diversity : (item_embeddings : List (List W)) → W
  unfolding similarities
  intra_list_diversity item_embeddings =
      let normed = map numpy.normalize item_embeddings in
      let total = numpy.sum (similarities normed normed) in
      let trace = numpy.sum (map (λ row. numpy.dot row row) normed) in
      let n = length item_embeddings in
      let mean_sim = f.div (f.sub total trace) (f.lit (n * (n - 1)) 1) in
      if ltb n 2 then zero_score else f.sub (f.lit 1 1) mean_sim

pub record EvaluationReport (W : Type 0) : Type 0 where
  pub auc : W
  pub ndcg10 : W
  pub mrr : W
  pub coverage : W
  pub diversity : W

unfoldable pub as_dict : {W : Type 0} → EvaluationReport W → List (String × W)
as_dict self =
    ("auc", self.auc)
    ∷ ("ndcg@10", self.ndcg10)
    ∷ ("mrr", self.mrr)
    ∷ ("coverage", self.coverage)
    ∷ ("diversity", self.diversity)
    ∷ []
