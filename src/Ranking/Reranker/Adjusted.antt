-- ===== src/Ranking/Reranker/Adjusted.antt =====
-- The first loop of `Reranker.apply`, where no creation time is naive.
use nexusfeed.Prelude.{
  ◌≡◌, refl, Bool, false, Option, none, some, List, [], ◌∷◌, String, map, leb, ◌+◌, get, string_eq,
  Bool-cases, ◌==◌, inl, inr,
}
use nexusfeed.Float.{Float}
use nexusfeed.Types.{ScoredItem, Time}
use nexusfeed.Ranking.Reranker.{Stamp, new_item_window, is_new, adjust, adjust_all}

-- whether an item of that creation time gets the boost
abbrev pub is_fresh : Time → Option Stamp → Bool
is_fresh now none = false
is_fresh now (some (Stamp.aware created_at)) = leb now (created_at + new_item_window)
is_fresh now (some (Stamp.naive created_at)) = false

-- no creation time lacks its time zone
abbrev pub IsAware : List (String × Stamp) → Type 0
IsAware item_created_at =
    (item_id : String) (t : Time) → ¬ (get item_id item_created_at ≡ some (Stamp.naive t))

pub IsAware-nil : IsAware []
unfolding get
IsAware-nil item_id t e = absurd (cc)

pub IsAware-cons :
    (key : String) (t : Time) (item_created_at : List (String × Stamp))
    → IsAware item_created_at
    → IsAware ((key, Stamp.aware t) ∷ item_created_at)
unfolding get
IsAware-cons key t item_created_at h item_id u = elim (Bool-cases (key == item_id)) [
  | inl here ↦ rw here (λ e. absurd (cc))
  | inr other ↦ rw other (h item_id u)
]

is_new-is_fresh :
    (now : Time) (stamp : Option Stamp)
    → ((t : Time) → ¬ (stamp ≡ some (Stamp.naive t)))
    → is_new now stamp ≡ some (is_fresh now stamp)
unfolding is_new
is_new-is_fresh now none h = refl
is_new-is_fresh now (some (Stamp.aware t)) h = refl
is_new-is_fresh now (some (Stamp.naive t)) h = absurd (h t refl)

module _ {W : Type 0} ⦃f : Float W⦄ (seen_items : List String)
    (item_created_at : List (String × Stamp)) (item_categories : List (String × String))
    (now : Time) where
  -- an item after the first loop
  abbrev pub adjusted : ScoredItem W → ScoredItem W
  adjusted item =
      adjust seen_items item_categories (is_fresh now (get item.item_id item_created_at)) item

  pub adjust_all_aware :
      IsAware item_created_at
      → (items : List (ScoredItem W))
      → adjust_all seen_items item_created_at item_categories now items ≡ some (map adjusted items)
  unfolding adjust_all
  adjust_all_aware h [] = refl
  adjust_all_aware h (item ∷ items) =
      rw
        (
          adjust_all,
          is_new-is_fresh now (get item.item_id item_created_at) (h item.item_id),
          adjust_all_aware h items,
        )
        refl
