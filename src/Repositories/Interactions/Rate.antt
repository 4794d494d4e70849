-- ===== src/Repositories/Interactions/Rate.antt =====
-- The click-through rate of an item, against counts of its rows.
use nexusfeed.Prelude.{
  ℕ, ◌+◌, ◌≤◌, ◌≡◌, refl, ap, List, [], ◌∷◌, String, get, get_default, put, get-put, nat_beq, ◌==◌,
  string_eq, if◌then◌else◌, arith, Bool-cases, inl, inr,
}
use nexusfeed.Float.{Float, zero_score}
use nexusfeed.Types.{Uuid}
use nexusfeed.World.{Interaction}
use nexusfeed.Repositories.Interactions.{
  count_by_event_type, click_through_rate, impressions_of, clicks_of,
}

-- how many rows of the item have the type
abbrev pub count_rows : Uuid → (event_type : String) → List Interaction → ℕ
count_rows item_id event_type [] = 0
count_rows item_id event_type (row ∷ rows) =
    (if row.item_id == item_id then (if row.event_type == event_type then 1 else 0) else 0)
    + count_rows item_id event_type rows

get_default-put :
    (k j : String) (v : ℕ) (d : List (String × ℕ))
    → get_default j 0 (put k v d) ≡ (if k == j then v else get_default j 0 d)
unfolding get_default
get_default-put k j v d = ground (arith, get-put k j v d)

get_default-count :
    (item_id : Uuid) (event_type : String) (rows : List Interaction)
    → get_default event_type 0 (count_by_event_type item_id rows)
      ≡ count_rows item_id event_type rows
unfolding count_by_event_type get_default get
get_default-count item_id event_type [] = refl
get_default-count item_id event_type (row ∷ rows) =
    let rest = get_default-count item_id event_type rows in
    let counts = count_by_event_type item_id rows in
    let placed =
      get_default-put row.event_type event_type (get_default row.event_type 0 counts + 1) counts in
    elim (Bool-cases (row.event_type == event_type)) [
      | inl same ↦
          let own =
            ap (λ k. get_default k 0 counts)
              ((string_eq.beq_iff row.event_type event_type).0 same) in
          ground arith
      | inr other ↦ ground arith
    ]

module _ {W : Type 0} ⦃f : Float W⦄ where
  -- The rate is the number of the item's clicks over that of its rows of the three types that count
  -- as impressions, or 0.0 if there is none of these; and no more clicks than impressions are
  -- counted, since a click is an impression too.
  pub click_through_rate_lem :
      (item_id : Uuid) (rows : List Interaction)
      → (clicks impressions : ℕ) × (clicks ≡ count_rows item_id "click" rows)
        × (impressions
            ≡ count_rows item_id "view_full" rows
              + count_rows item_id "view_scroll_past" rows
              + count_rows item_id "click" rows)
        × (clicks ≤ impressions)
        × (click_through_rate item_id rows ≡ (
            if nat_beq impressions 0
            then zero_score
            else f.div (f.lit clicks 1) (f.lit impressions 1)))
  unfolding click_through_rate
  click_through_rate_lem item_id rows =
      let counts = count_by_event_type item_id rows in
      (
        clicks_of counts,
        impressions_of counts,
        get_default-count item_id "click" rows,
        omega (
          arith,
          get_default-count item_id "view_full" rows,
          get_default-count item_id "view_scroll_past" rows,
          get_default-count item_id "click" rows,
        ),
        omega arith,
        refl,
      )
