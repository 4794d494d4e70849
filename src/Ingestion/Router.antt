-- ===== src/Ingestion/Router.antt =====
-- nexusfeed/ingestion/event_router.py: `EventRouter.route`. Each event goes to two topics, keyed by
-- the user and by the item.
pub mod Topics
use nexusfeed.Prelude.{ℕ, String}
use nexusfeed.Types.{Event}
use nexusfeed.World.{World, Message, Payload, M, Sending, ◌>>=◌, ◌>>◌}
use nexusfeed.Ingestion.Producer.{send, default_max_retries}

-- `kafka_topic_user_events` and `kafka_topic_item_events` of nexusfeed/config.py
abbrev pub topic_user_events : String
topic_user_events = "user-events"

abbrev pub topic_item_events : String
topic_item_events = "item-events"

abbrev pub user_message : Event → Message
user_message event = record {
  topic = topic_user_events;
  value = Payload.event event;
  key = event.user_id;
}

abbrev pub item_message : Event → Message
item_message event = record {
  topic = topic_item_events;
  value = Payload.event event;
  key = event.item_id;
}

unfoldable pub route : {S : Type 0} → (ℕ → Sending) → Event → M S (Unit {0})
route broker event = do
  send broker default_max_retries (user_message event)
  send broker default_max_retries (item_message event)
