-- ===== src/Ranking/Diversity.antt =====
-- nexusfeed/ranking/diversity.py: `mmr_rerank` and `category_exposure_cap`.
-- An array of floats is a function of the index; both arrays are at least as long as the list of
-- candidates, as the one caller builds them. `float(np.max(selected_embs @ normed[i]))` is
-- `max_sim selected i`: the normalised embeddings and numpy's products are not the repository's.
pub mod Cap
pub mod Mmr
use nexusfeed.Prelude.{
  ℕ, zero, suc, ◌+◌, ◌*◌, ◌/◌, max, Bool, true, false, Option, none, some, List, [], ◌∷◌, ◌++◌,
  String, map, ltb, length, get_elem?, if◌then◌else◌, remove, nat_eq, string_eq, get_default, put,
}
use nexusfeed.Float.{Float, Fraction, int_fraction}
use nexusfeed.Sorting.{max_from}

-- `list(range(n))`, from `start`
unfoldable pub range_from : ℕ → ℕ → List ℕ
range_from start zero = []
range_from start (suc n) = start ∷ range_from (suc start) n

-- `[xs[i] for i in indices]`; `none` is an IndexError
unfoldable pub gather {ℓ} : {A : Type ℓ} → List A → List ℕ → Option (List A)
gather xs [] = some []
gather xs (i ∷ is) = elim (get_elem? xs i) [
  | none ↦ none
  | some x ↦ elim (gather xs is) [ none ↦ none | some ys ↦ some (x ∷ ys) ]
]

module _ {W : Type 0} ⦃f : Float W⦄ (relevance : ℕ → W) (max_sim : List ℕ → ℕ → W)
    (lambda_relevance : W) where
  unfoldable pub mmr_score : List ℕ → ℕ → W
  mmr_score selected i =
      f.sub (f.mul lambda_relevance (relevance i))
        (f.mul (f.sub (f.lit 1 1) lambda_relevance) (max_sim selected i))

  -- the key of `max` in a round of the loop
  unfoldable pub round_key : List ℕ → ℕ → W
  unfolding mmr_score
  round_key [] i = relevance i
  round_key (s ∷ selected) i = mmr_score (s ∷ selected) i

  -- `while remaining and len(selected) < n`, on fuel
  unfoldable pub mmr_loop : ℕ → ℕ → List ℕ → List ℕ → List ℕ
  unfolding round_key max_from remove
  mmr_loop zero n selected remaining = selected
  mmr_loop (suc fuel) n selected [] = selected
  mmr_loop (suc fuel) n selected (r ∷ rest) =
      let best = max_from (round_key selected) r rest in
      let next = mmr_loop fuel n (selected ++ best ∷ []) (remove best (r ∷ rest)) in
      if ltb (length selected) n then next else selected

  -- each round removes one index, so as many rounds as candidates are enough
  unfoldable pub mmr_rerank {ℓ} : {A : Type ℓ} → List A → ℕ → Option (List A)
  unfolding mmr_loop gather range_from
  mmr_rerank [] n = some []
  mmr_rerank (c ∷ candidates) n =
      let ids = c ∷ candidates in
      gather ids (mmr_loop (length ids) n [] (range_from 0 (length ids)))

abbrev pub default_category_fraction : Fraction
default_category_fraction = record { numerator = 4; denominator = 10 }

-- `max_count`
abbrev pub max_category_count : ℕ → Fraction → ℕ
max_category_count count fraction = max 1 (int_fraction count fraction)

module _ (categories : List (String × String)) where
  unfoldable pub category_of : String → String
  unfolding get_default
  category_of item_id = get_default item_id "unknown" categories

  -- the `for`: `(result, overflow)` when the loop is done
  unfoldable pub cap_loop : ℕ → List (String × ℕ) → List String → List String × List String
  unfolding category_of get_default put
  cap_loop max_count counts [] = ([], [])
  cap_loop max_count counts (item_id ∷ rest) =
      let category = category_of item_id in
      let seen = get_default category 0 counts in
      let fits = ltb seen max_count in
      let (result, overflow) =
        cap_loop max_count (if fits then put category (seen + 1) counts else counts) rest in
      if fits then (item_id ∷ result, overflow) else (result, item_id ∷ overflow)

  unfoldable pub category_exposure_cap : List String → Fraction → List String
  unfolding cap_loop
  category_exposure_cap ranked_ids fraction =
      let (result, overflow) =
        cap_loop (max_category_count (length ranked_ids) fraction) [] ranked_ids in
      result ++ overflow
