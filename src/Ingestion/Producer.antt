-- ===== src/Ingestion/Producer.antt =====
-- nexusfeed/ingestion/kafka_producer.py: `KafkaEventProducer.send`. The broker is an argument: how
-- the n-th call of aiokafka's `send_and_wait` ends, and whether the message is stored then.
pub mod Copies
pub mod Retries
pub mod Reports
use nexusfeed.Prelude.{
  ℕ, zero, suc, ◌+◌, ◌*◌, ◌^◌, min, Bool, true, false, List, ◌∷◌, if◌then◌else◌, ltb,
}
use nexusfeed.Types.{Time}
use nexusfeed.World.{
  World, Message, M, Exn, Outcome, Sending, Result, ok, raise, pure, fail, ◌>>=◌, ◌>>◌,
}

-- `max_retries: int = 3`
abbrev pub default_max_retries : ℕ
default_max_retries = 3

-- `min(0.05 * (2**attempt), 2.0)` seconds, in microseconds
unfoldable pub backoff : ℕ → Time
backoff attempt = min (50_000 * 2 ^ attempt) 2_000_000

abbrev pub is_stored : Sending → Bool
is_stored Sending.acknowledged = true
is_stored (Sending.kafka_failed stored) = stored
is_stored (Sending.failed stored) = stored

-- what the caller sees of it
abbrev pub outcome_of : Sending → Outcome
outcome_of Sending.acknowledged = Outcome.returned
outcome_of (Sending.kafka_failed stored) = Outcome.kafka_failed
outcome_of (Sending.failed stored) = Outcome.failed

module _ {S : Type 0} where
  -- `asyncio.sleep`
  abbrev pub sleep : Time → M S (Unit {0})
  sleep d w = (record w { clock = w.clock + d }, ok tt)

  module _ (broker : ℕ → Sending) where
    -- `send_and_wait`
    unfoldable pub send_and_wait : Message → World S → World S × Outcome
    send_and_wait m w =
        let sending = broker w.broker_calls in
        (
          record w {
            broker_calls = w.broker_calls + 1;
            sent = if is_stored sending then m ∷ w.sent else w.sent;
          },
          outcome_of sending,
        )

    -- `while True`, on fuel
    unfoldable pub send_loop : (fuel max_retries attempt : ℕ) → Message → M S (Unit {0})
    unfolding send_and_wait backoff
    send_loop zero max_retries attempt m w = (w, raise Exn.out_of_fuel)
    send_loop (suc fuel) max_retries attempt m w =
        let (w', outcome) = send_and_wait m w in
        elim outcome [
          | Outcome.returned ↦ (w', ok tt)
          | Outcome.failed ↦ (w', raise Exn.library_error)
          | Outcome.kafka_failed ↦
              let again =
                (sleep (backoff (attempt + 1)) >> send_loop fuel max_retries (attempt + 1) m) w' in
              if ltb max_retries (attempt + 1) then (w', raise Exn.kafka_error) else again
        ]

    -- every round but the last adds one to `attempt`, so `max_retries + 1` rounds are enough
    unfoldable pub send : (max_retries : ℕ) → Message → M S (Unit {0})
    unfolding send_loop
    send max_retries m w =
        if w.kafka_started
        then send_loop (max_retries + 1) max_retries 0 m w
        else (w, raise Exn.runtime_error)
