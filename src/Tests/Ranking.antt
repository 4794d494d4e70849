-- ===== src/Tests/Ranking.antt =====
-- Ranking at three items, one of them seen before.
use mathlib.Core.List.{Mem, Perm, Sublist}
use nexusfeed.Prelude.{Option, ℕ, ◌≤◌, ◌≡◌, refl, some, List, [], ◌∷◌, ◌++◌, map, String, length}
use nexusfeed.Float.{Fraction, hundredths-IsOrdered}
use nexusfeed.Sorting.{sort_desc, IsDescending}
use nexusfeed.Types.{ScoredItem}
use nexusfeed.Ranking.Diversity.{
  mmr_rerank, gather, max_category_count, category_of, category_exposure_cap,
}
use nexusfeed.Ranking.Diversity.Cap.{count_category, category_exposure_cap_lem}
use nexusfeed.Ranking.Diversity.Mmr.{Greedy, all_indices, mmr_rerank-perm, mmr_rerank-Greedy}
use nexusfeed.Ranking.Ranker.{scored, score_of, scores_of, build_feature_matrix, score, score_lem}
use nexusfeed.Ranking.Reranker.{id_of, key_of, Stamp, slice_to, apply}
use nexusfeed.Ranking.Reranker.Adjusted.{IsAware, IsAware-nil, IsAware-cons, adjusted}
use nexusfeed.Prelude.Int.{pos, negsuc}
use nexusfeed.Ranking.Reranker.Size.{Stacks, apply_total}
use nexusfeed.Ranking.Reranker.Order.{apply_plain}
use nexusfeed.Tests.Data.{noon, item, distinct_abc, hundredths_float}

abbrev categories : List (String × String)
categories = ("a", "news") ∷ ("b", "news") ∷ ("c", "sport") ∷ []

abbrev items : List (ScoredItem ℕ)
items = item "a" 90 ∷ item "b" 80 ∷ item "c" 70 ∷ []

abbrev ids : List String
ids = "a" ∷ "b" ∷ "c" ∷ []

abbrev third : Fraction
third = record { numerator = 1; denominator = 3 }

abbrev relevance : ℕ → ℕ
relevance i = 90

abbrev similarity : List ℕ → ℕ → ℕ
similarity selected i = i

abbrev similarity_of : List ℕ → Option (List ℕ → ℕ → ℕ)
similarity_of vectors = some similarity

abbrev created : List (String × Stamp)
created = ("a", Stamp.aware noon) ∷ []

created-IsAware : IsAware created
created-IsAware = IsAware-cons "a" noon [] IsAware-nil

similarity_of-Stacks : Stacks similarity_of (("a", 5) ∷ [])
similarity_of-Stacks item_id others embeddings e = (similarity, refl)

abbrev model : List (List ℕ) → List ℕ
model rows = 10 ∷ 30 ∷ 20 ∷ []

abbrev features : List (List (String × ℕ))
features = [] ∷ (("popularity_score", 3) ∷ []) ∷ [] ∷ []

category_exposure_cap_lem_example :
    (kept overflow : List String) × (category_exposure_cap categories ids third ≡ kept ++ overflow)
    × Perm (kept ++ overflow) ids
    × Sublist kept ids
    × Sublist overflow ids
    × ((c : String) → count_category categories c kept ≤ max_category_count 3 third)
    × ((x : String)
        → Mem x overflow
        → count_category categories (category_of categories x) kept ≡ max_category_count 3 third)
category_exposure_cap_lem_example = category_exposure_cap_lem categories ids third

mmr_rerank-perm_example :
    (out left : List String) × (mmr_rerank relevance similarity 70 ids 2 ≡ some out)
    × (length out ≡ 2)
    × Perm (out ++ left) ids
mmr_rerank-perm_example = mmr_rerank-perm relevance similarity 70 ids 2

mmr_rerank-Greedy_example :
    (indices : List ℕ) × Greedy relevance similarity 70 2 []
      (all_indices relevance similarity 70 ids)
      indices
    × (gather ids indices ≡ mmr_rerank relevance similarity 70 ids 2)
mmr_rerank-Greedy_example = mmr_rerank-Greedy relevance similarity 70 hundredths-IsOrdered ids 2

score_lem_example :
    (pairs : List (String × ℕ)) × (ranked : List (ScoredItem ℕ)) × (score model ids features
      ≡ some ranked)
    × (map (λ p. p.0) pairs ≡ ids)
    × (map (λ p. p.1) pairs ≡ scores_of model (build_feature_matrix features))
    × Perm ranked (map scored pairs)
    × IsDescending score_of ranked
unfolding scores_of build_feature_matrix
score_lem_example = score_lem model hundredths-IsOrdered ids features refl

apply_total_example :
    (out : List (ScoredItem ℕ)) × (dropped : List String) × (apply similarity_of items
        (negsuc 0)
        ("a" ∷ [])
        created
        categories
        (("a", 5) ∷ [])
        70
        noon
      ≡ some out)
    × (length out ≡ 2)
    × Perm (map id_of out ++ dropped) ids
    × ((i : ScoredItem ℕ)
        → Mem i out
        → Mem i (map (adjusted ("a" ∷ []) created categories noon) items))
apply_total_example =
    apply_total similarity_of items (negsuc 0) ("a" ∷ []) created categories (("a", 5) ∷ []) 70 noon
      created-IsAware similarity_of-Stacks

apply_plain_example :
    (apply similarity_of items (pos 2) ("a" ∷ []) created [] [] 70 noon
      ≡ some
          (slice_to (pos 2) (sort_desc key_of (map (adjusted ("a" ∷ []) created [] noon) items))))
    × IsDescending key_of (sort_desc key_of (map (adjusted ("a" ∷ []) created [] noon) items))
apply_plain_example =
    apply_plain similarity_of items (pos 2) ("a" ∷ []) created 70 noon hundredths-IsOrdered
      created-IsAware distinct_abc
