-- ===== src/Tests/Ingestion.antt =====
-- Ingestion at a click without a timestamp, on an empty Redis.
use nexusfeed.Prelude.{ℕ, ◌+◌, ◌*◌, ◌≡◌, refl, inl, true, some, arith}
use nexusfeed.Types.{Event}
use nexusfeed.Redis.{second}
use nexusfeed.World.{World, Exn, ok, raise}
use nexusfeed.Ingestion.Producer.{default_max_retries, send}
use nexusfeed.Ingestion.Producer.Retries.{Retried, send-Retried}
use nexusfeed.Ingestion.Router.{user_message, route}
use nexusfeed.Ingestion.Router.Topics.{Routed, route_lem}
use nexusfeed.Ingestion.Validator.{validate}
use nexusfeed.Ingestion.Validator.Checks.{IsTimely, validate_once, marked}
use nexusfeed.Api.Events.{ingest_event, duplicate_ignored}
use nexusfeed.Api.Events.Delivery.{
  Delivered, ingest_event_untimely, ingest_event-Delivered, ingest_event_repeated,
  ingest_event_lost,
}
use nexusfeed.Tests.Store.{Store, memory, memory-Laws}
use nexusfeed.Tests.Data.{event, noon, world_at, lossy, down, reliable}

abbrev running : World Store
running = world_at noon true

timely : (w : World Store) → IsTimely w.clock event
timely w ts sent = absurd (cc)

-- the event, dated an hour ahead
abbrev early : Event
early = record event { client_timestamp = some (noon + 3600 * second) }

-- a minute after the first call, on the Redis that it left
abbrev retry_of : World Store → World Store
retry_of w = record w { clock = noon + 60 * second }

send-Retried_example :
    (retries : ℕ) × Retried lossy
      (user_message event)
      default_max_retries
      running
      (send lossy default_max_retries (user_message event) running).0
      (send lossy default_max_retries (user_message event) running).1
      retries
send-Retried_example = send-Retried lossy (user_message event) default_max_retries running refl

route_lem_example :
    let end = route lossy event running in
    (end.0.redis ≡ running.redis)
    × (end.0.interactions ≡ running.interactions)
    × Routed event running.sent end.0.sent end.1
route_lem_example = route_lem lossy event running

validate_once_example :
    ((validate memory event running).1 ≡ ok tt)
    × (validate memory event (retry_of (validate memory event running).0)
        ≡ (retry_of (validate memory event running).0, raise Exn.duplicate_event))
validate_once_example =
    validate_once memory memory-Laws event running (retry_of (validate memory event running).0)
      (timely running) (timely (retry_of (validate memory event running).0)) refl refl (omega arith)
      (omega arith)

ingest_event_untimely_example :
    ingest_event memory lossy reliable early running ≡ (running, raise Exn.event_validation)
ingest_event_untimely_example =
    ingest_event_untimely memory lossy reliable early running (noon + 3600 * second) refl
      (inl (omega arith))

ingest_event-Delivered_example :
    ((ingest_event memory lossy reliable event running).0.redis
      ≡ (marked memory memory-Laws event running).redis)
    × Delivered event running.sent running.interactions
        (ingest_event memory lossy reliable event running).0
        (ingest_event memory lossy reliable event running).1
ingest_event-Delivered_example =
    ingest_event-Delivered memory lossy reliable event memory-Laws running (timely running) refl

ingest_event_repeated_example :
    ingest_event memory lossy reliable event
      (retry_of (ingest_event memory lossy reliable event running).0)
    ≡ (retry_of (ingest_event memory lossy reliable event running).0, ok duplicate_ignored)
ingest_event_repeated_example =
    ingest_event_repeated memory lossy reliable event memory-Laws running
      (retry_of (ingest_event memory lossy reliable event running).0) (timely running)
      (timely (retry_of (ingest_event memory lossy reliable event running).0)) refl refl
      (omega arith) (omega arith)

ingest_event_lost_example :
    ((ingest_event memory down reliable event running).1 ≡ raise Exn.kafka_error)
    × ((ingest_event memory down reliable event running).0.sent ≡ running.sent)
    × ((ingest_event memory down reliable event running).0.interactions ≡ running.interactions)
    × (ingest_event memory down reliable event
          (retry_of (ingest_event memory down reliable event running).0)
        ≡ (retry_of (ingest_event memory down reliable event running).0, ok duplicate_ignored))
ingest_event_lost_example =
    ingest_event_lost memory down reliable event memory-Laws running
      (retry_of (ingest_event memory down reliable event running).0) (timely running)
      (timely (retry_of (ingest_event memory down reliable event running).0)) refl refl
      (λ i h. refl) refl (omega arith) (omega arith)
