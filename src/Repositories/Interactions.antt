-- ===== src/Repositories/Interactions.antt =====
-- nexusfeed/db/repositories/interaction_repo.py: the queries of `InteractionRepository`; `record` is
-- modelled with the endpoint that calls it.
pub mod Rate
use nexusfeed.Prelude.{
  ℕ, ◌+◌, Bool, true, false, List, [], ◌∷◌, String, take, filter, leb, nat_beq, get_default, put,
  ◌==◌, string_eq, if◌then◌else◌,
}
use nexusfeed.Float.{Float, zero_score}
use nexusfeed.Types.{Uuid, Time}
use nexusfeed.World.{Interaction}

-- a row and the time that the database gave it
pub record Row : Type 0 where
  pub interaction : Interaction
  pub created_at : Time

-- `newest_first` is the order of `created_at DESC`
unfoldable pub for_user :
    (newest_first : List Row → List Row) (user_id : Uuid) (since : Time) (limit : ℕ)
    → List Row
    → List Row
unfolding filter
for_user newest_first user_id since limit rows = take limit (
    newest_first (
      filter (λ row. if row.interaction.user_id == user_id then leb since row.created_at else false)
        rows))

-- `GROUP BY event_type`: each row of the item adds one to its group
unfoldable pub count_by_event_type : Uuid → List Interaction → List (String × ℕ)
unfolding put get_default
count_by_event_type item_id [] = []
count_by_event_type item_id (row ∷ rows) =
    let counts = count_by_event_type item_id rows in
    if row.item_id == item_id
    then put row.event_type (get_default row.event_type 0 counts + 1) counts
    else counts

abbrev pub impressions_of : List (String × ℕ) → ℕ
impressions_of counts =
    get_default "view_full" 0 counts
    + get_default "view_scroll_past" 0 counts
    + get_default "click" 0 counts

abbrev pub clicks_of : List (String × ℕ) → ℕ
clicks_of counts = get_default "click" 0 counts

module _ {W : Type 0} ⦃f : Float W⦄ where
  unfoldable pub click_through_rate : Uuid → List Interaction → W
  unfolding count_by_event_type
  click_through_rate item_id rows =
      let counts = count_by_event_type item_id rows in
      let impressions = impressions_of counts in
      let clicks = clicks_of counts in
      if nat_beq impressions 0 then zero_score else f.div (f.lit clicks 1) (f.lit impressions 1)
