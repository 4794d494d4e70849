-- ===== src/Types.antt =====
-- nexusfeed/types.py: the event types and the records that the components exchange. A UUID is its
-- canonical text, which is what the program keys its stores by; a time is a count of microseconds.
use mathlib.Core.Logic.{◌↔◌}
use nexusfeed.Prelude.{
  ℕ, ◌≡◌, Bool, true, false, Option, List, [], ◌∷◌, String, nat_beq, ltb, Eq, elem, arith,
  if◌then◌else◌,
}
use nexusfeed.Prelude.Int.{ℤ, pos, negsuc, ltb_ℤ}

abbrev pub Uuid : Type 0
Uuid = String

-- microseconds
abbrev pub Time : Type 0
Time = ℕ

pub data EventType : Type 0 where
  view_full view_scroll_past click dwell share save skip report hide : EventType

abbrev pub value : EventType → String
value EventType.view_full = "view_full"
value EventType.view_scroll_past = "view_scroll_past"
value EventType.click = "click"
value EventType.dwell = "dwell"
value EventType.share = "share"
value EventType.save = "save"
value EventType.skip = "skip"
value EventType.report = "report"
value EventType.hide = "hide"

abbrev pub position : EventType → ℕ
position EventType.view_full = 0
position EventType.view_scroll_past = 1
position EventType.click = 2
position EventType.dwell = 3
position EventType.share = 4
position EventType.save = 5
position EventType.skip = 6
position EventType.report = 7
position EventType.hide = 8

pub event_type_beq_iff : (a b : EventType) → (nat_beq (position a) (position b) ≡ true) ↔ (a ≡ b)
event_type_beq_iff a b = ground arith

instance abbrev pub event_type_eq : Eq EventType
event_type_eq = record {
  beq = λ a b. nat_beq (position a) (position b);
  beq_iff = event_type_beq_iff;
}

-- `EVENT_SIGNAL_WEIGHT`, in quarters: the table's floats are multiples of 0.25
abbrev pub event_signal_weight : EventType → ℤ
event_signal_weight EventType.view_full = pos 4
event_signal_weight EventType.view_scroll_past = negsuc 0
event_signal_weight EventType.click = pos 6
event_signal_weight EventType.dwell = pos 5
event_signal_weight EventType.share = pos 12
event_signal_weight EventType.save = pos 12
event_signal_weight EventType.skip = negsuc 3
event_signal_weight EventType.report = negsuc 11
event_signal_weight EventType.hide = negsuc 11

abbrev pub negative_events : List EventType
negative_events =
    EventType.view_scroll_past ∷ EventType.skip ∷ EventType.report ∷ EventType.hide ∷ []

pub record Event : Type 0 where
  pub event_id : Uuid
  pub user_id : Uuid
  pub item_id : Uuid
  pub event_type : EventType
  pub dwell_ms : Option ℤ
  pub session_id : Option Uuid
  pub device : Option String
  pub client_timestamp : Option Time
  pub created_at : Time

unfoldable pub is_negative : Event → Bool
unfolding elem
is_negative event = elem event.event_type negative_events

unfoldable pub signal_weight : Event → ℤ
signal_weight event = event_signal_weight event.event_type

-- The events counted as negative are those whose training signal is below zero; no event has
-- weight zero, so each of the others has a positive one.
is_negative-signal_weight :
    (event : Event)
    → (is_negative event ≡ ltb_ℤ (signal_weight event) (pos 0))
      × (is_negative event ≡ (if ltb_ℤ (pos 0) (signal_weight event) then false else true))
unfolding is_negative signal_weight
is_negative-signal_weight event = by_type event.event_type
  where
    by_type :
        (t : EventType)
        → (elem t negative_events ≡ ltb_ℤ (event_signal_weight t) (pos 0))
          × (elem t negative_events
              ≡ (if ltb_ℤ (pos 0) (event_signal_weight t) then false else true))
    by_type t = ground arith

pub record ScoredItem (W : Type 0) : Type 0 where
  pub item_id : String
  pub score : W
  pub category : Option String
  pub is_trending : Bool
  pub freshness_boosted : Bool
  pub explanation : Option (List (String × W))

pub record FeedItem (W : Type 0) : Type 0 where
  pub item_id : String
  pub score : W
  pub rank : ℕ
  pub category : Option String
  pub is_trending : Bool
  pub explanation : Option String

pub record ExperimentAssignment : Type 0 where
  pub user_id : Uuid
  pub experiment_name : String
  pub bucket : ℤ
  pub variant : String

pub record ExperimentMetrics : Type 0 where
  pub experiment_name : String
  pub variant : String
  pub impressions : ℕ
  pub clicks : ℕ
  pub shares : ℕ
  pub dwell_ms_total : ℤ
  pub returns : ℕ

-- `UserProfile.is_cold_start` and `ItemProfile.is_cold_start`, over the count that they test
unfoldable pub is_cold_start : (count threshold : ℕ) → Bool
is_cold_start count threshold = ltb count threshold
