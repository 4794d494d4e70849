-- ===== src/Baselines/Collaborative.antt =====
-- nexusfeed/baselines/collaborative_filtering.py. The singular value decomposition of numpy, with
-- the products of its factors cut to so many columns, is the argument `factors`.
pub mod Excluded
use nexusfeed.Prelude.{
  ℕ, zero, suc, ◌+◌, true, false, Option, none, some, List, [], ◌∷◌, ◌++◌, String, length, leb,
  elem, get, put, get_elem?, ◌==◌, string_eq, nat_eq, if◌then◌else◌,
}

-- the object after `fit`; `factors` is none before it
pub record CollaborativeFiltering (F : Type 0) : Type 0 where
  pub num_factors : ℕ
  pub factors : Option F
  pub user_index : List (String × ℕ)
  pub item_index : List (String × ℕ)

-- `{id: i for i, id in enumerate(ids)}`, from `i` on
unfoldable pub enumerated : ℕ → List String → List (String × ℕ) → List (String × ℕ)
unfolding put
enumerated i [] d = d
enumerated i (id ∷ ids) d = enumerated (i + 1) ids (put id i d)

-- `{idx: iid for iid, idx in self.item_index.items()}`
unfoldable pub id_by_index : List (String × ℕ) → List (ℕ × String) → List (ℕ × String)
unfolding put
id_by_index [] d = d
id_by_index ((iid, idx) ∷ index) d = id_by_index index (put idx iid d)

-- the loop of `recommend`; `none` is its KeyError
unfoldable pub collect :
    (by_index : List (ℕ × String)) (exclude : List String) (n : ℕ) (results : List String)
    → List ℕ
    → Option (List String)
collect by_index exclude n results [] = some results
collect by_index exclude n results (idx ∷ ranked_indices) = elim (get idx by_index) [
  | none ↦ none
  | some item_id ↦ elim (elem item_id exclude) [
    | true ↦ collect by_index exclude n results ranked_indices
    | false ↦
        let found = results ++ item_id ∷ [] in
        let rest = collect by_index exclude n found ranked_indices in
        if leb n (length found) then some found else rest
  ]
]

module _ {F X : Type 0} (svd : X → (k : ℕ) → F) (argsort : F → (user : ℕ) → List ℕ) where
  unfoldable pub fit :
      CollaborativeFiltering F
      → (interaction_matrix : X) (user_ids item_ids : List String) → CollaborativeFiltering F
  unfolding enumerated
  fit self interaction_matrix user_ids item_ids = record self {
    factors = some (svd interaction_matrix self.num_factors);
    user_index = enumerated 0 user_ids [];
    item_index = enumerated 0 item_ids [];
  }

  -- the indices of the items, the user's highest scores first
  abbrev pub ranked_for : Option F → Option ℕ → Option (List ℕ)
  ranked_for none user = none
  ranked_for (some factors) none = none
  ranked_for (some factors) (some user) = some (argsort factors user)

  unfoldable pub recommend :
      CollaborativeFiltering F
      → (user_id : String) (n : ℕ) (exclude : List String) → Option (List String)
  unfolding id_by_index
  recommend self user_id n exclude = elim (ranked_for self.factors (get user_id self.user_index)) [
    | none ↦ some []
    | some ranked_indices ↦ collect (id_by_index self.item_index []) exclude n [] ranked_indices
  ]
