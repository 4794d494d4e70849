-- ===== src/Retrieval/CandidateGenerator.antt =====
-- nexusfeed/retrieval/candidate_generator.py: `CandidateGenerator.retrieve`. The index is given by
-- what its search returns or raises.
pub mod Candidates
use nexusfeed.Prelude.{
  ℕ, Bool, Option, none, some, List, [], ◌∷◌, ◌++◌, map, String, elem, take, if◌then◌else◌,
  string_eq,
}
use nexusfeed.Float.{Float, zero_score}
use nexusfeed.World.{Result, ok, raise}

-- `(ids or [])`
abbrev pub or_nil : Option (List String) → List String
or_nil none = []
or_nil (some ids) = ids

abbrev pub forced_limit : ℕ
forced_limit = 5

abbrev pub trending_limit : ℕ
trending_limit = 10

module _ {W : Type 0} ⦃f : Float W⦄ where
  -- one of the two loops: `results` and `seen` after it
  unfoldable pub append_unseen :
      List String → List (String × W) → List String → List (String × W) × List String
  append_unseen [] results seen = (results, seen)
  append_unseen (item_id ∷ item_ids) results seen =
      let known = elem item_id seen in
      append_unseen item_ids (if known then results else results ++ (item_id, zero_score) ∷ [])
        (if known then seen else item_id ∷ seen)

  abbrev pub ids_of : List (String × W) → List String
  ids_of results = map (λ e. e.0) results

  unfoldable pub retrieve :
      (search : Result (List (String × W)))
      (trending_item_ids forced_exploration_item_ids : Option (List String))
      → Result (List (String × W))
  unfolding append_unseen
  retrieve (raise e) trending forced = raise e
  retrieve (ok results) trending forced =
      let (results', seen) =
        append_unseen (take forced_limit (or_nil forced)) results (ids_of results) in
      ok (append_unseen (take trending_limit (or_nil trending)) results' seen).0
