-- ===== src/Api/Feedback.antt =====
-- nexusfeed/api/routers/feedback.py: `submit_feedback`. The id of the new row is the database's, and
-- is left out of the answer.
use nexusfeed.Prelude.{ℕ, none, [], ◌∷◌, String, elem, string_eq, if◌then◌else◌}
use nexusfeed.Float.{Float}
use nexusfeed.Types.{Uuid, EventType, value}
use nexusfeed.Redis.{Redis}
use nexusfeed.World.{Interaction, M, Outcome, pure, ◌>>=◌, ◌>>◌}
use nexusfeed.Features.OnlineStore.{set_item_score}
use nexusfeed.Api.Events.{accepted, record_interaction, commit}

pub record FeedbackRequest : Type 0 where
  pub user_id : Uuid
  pub item_id : Uuid
  pub feedback_type : EventType

abbrev pub feedback_row : FeedbackRequest → Interaction
feedback_row feedback = record {
  user_id = feedback.user_id;
  item_id = feedback.item_id;
  event_type = value feedback.feedback_type;
  dwell_ms = none;
  session_id = none;
}

module _ {W : Type 0} ⦃f : Float W⦄ (r : Redis W) (database : ℕ → Outcome) (minus_one : W) where
  -- the score -1.0 at once for a report or a hide
  unfoldable pub penalize : FeedbackRequest → M r.Store (Unit {0})
  penalize feedback =
      if elem (value feedback.feedback_type) ("report" ∷ "hide" ∷ [])
      then set_item_score r feedback.item_id minus_one
      else pure tt

  unfoldable pub submit_feedback : FeedbackRequest → M r.Store String
  unfolding penalize
  submit_feedback feedback = do
    row ← record_interaction database (feedback_row feedback)
    commit database row
    penalize feedback
    pure accepted
