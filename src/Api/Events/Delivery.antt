-- ===== src/Api/Events/Delivery.antt =====
-- What a client of `POST /v1/events` can rely on, and what it cannot.
use nexusfeed.Prelude.{
  ℕ, ◌+◌, ◌*◌, ◌≤◌, ◌<◌, ◌≡◌, refl, ap, sym, ◌∙◌, true, false, none, some, String, List, ◌∷◌, inl,
  inr, ◌⊎◌, arith,
}
use nexusfeed.Types.{Time, Event}
use nexusfeed.Redis.{Redis, Laws, second}
use nexusfeed.World.{
  World, Message, Interaction, Exn, Outcome, Sending, Result-cases, Result, ok, raise, pure, ◌>>=◌,
  ◌>>◌,
}
use nexusfeed.Ingestion.Producer.{default_max_retries}
use nexusfeed.Ingestion.Producer.Copies.{Outcome-cases}
use nexusfeed.Ingestion.Producer.Reports.{send_refused, send-frame}
use nexusfeed.Ingestion.Router.{user_message, route}
use nexusfeed.Ingestion.Router.Topics.{Routed, route_first, route_lem}
use nexusfeed.Ingestion.Validator.{
  max_clock_skew_seconds, max_event_age_seconds, dedupe_key_ttl_seconds, validate,
}
use nexusfeed.Ingestion.Validator.Checks.{
  IsTimely, validate_untimely, validate_new, validate_once, key, marked,
}
use nexusfeed.Api.Events.{
  accepted, duplicate_ignored, write, record_interaction, commit, audit_row, deliver, ingest_event,
}

module _ {S : Type 0} (database : ℕ → Outcome) where
  abbrev counted : World S → World S
  counted w = record w { writes = w.writes + 1 }

  write_cases :
      (w : World S)
      → (write database w ≡ (counted w, ok tt))
        ⊎ (write database w ≡ (counted w, raise Exn.database_error))
  unfolding write
  write_cases w = elim (Outcome-cases (database w.writes)) [
    | inl e ↦ inl (rw (e, write) refl)
    | inr (inl e) ↦ inr (rw (e, write) refl)
    | inr (inr e) ↦ inr (rw (e, write) refl)
  ]

  -- the row is committed and the handler says so, or neither
  abbrev Stored : Interaction → World S → World S × Result String → Type 0
  Stored row w end =
      (end.0.redis ≡ w.redis)
      × (end.0.sent ≡ w.sent)
      × (((end.1 ≡ ok accepted) × (end.0.interactions ≡ row ∷ w.interactions))
          ⊎ ((e : Exn) × (end.1 ≡ raise e) × (end.0.interactions ≡ w.interactions)))

  abbrev store : Interaction → World S → World S × Result String
  store row = do row' ← record_interaction database row; commit database row'; pure accepted

  module _ (row : Interaction) (w : World S) where
    store_unflushed :
        write database w ≡ (counted w, raise Exn.database_error)
        → store row w ≡ (counted w, raise Exn.database_error)
    unfolding record_interaction
    store_unflushed e = ground arith

    store_uncommitted :
        write database w ≡ (counted w, ok tt)
        → write database (counted w) ≡ (counted (counted w), raise Exn.database_error)
        → store row w ≡ (counted (counted w), raise Exn.database_error)
    unfolding record_interaction commit
    store_uncommitted e e' = ground arith

    store_committed :
        write database w ≡ (counted w, ok tt)
        → write database (counted w) ≡ (counted (counted w), ok tt)
        → store row w
          ≡ (record (counted (counted w)) { interactions = row ∷ w.interactions }, ok accepted)
    unfolding record_interaction commit
    store_committed e e' = ground arith

    store-Stored : Stored row w (store row w)
    store-Stored = elim (write_cases w) [
      | inr e ↦ rw (store_unflushed e) (refl, refl, inr (Exn.database_error, refl, refl))
      | inl e ↦ elim (write_cases (counted w)) [
        | inr e' ↦ rw (store_uncommitted e e') (refl, refl, inr (Exn.database_error, refl, refl))
        | inl e' ↦ rw (store_committed e e') (refl, refl, inl (refl, refl))
      ]
    ]

-- How a delivery ends, by the messages and rows before it: the event is on both topics and in the
-- table, and the client is told so; or the client gets an error and the table is as before.
pub data Delivered {S : Type 0} (event : Event) (sent : List Message) (rows : List Interaction)
    (w' : World S) (r : Result String) : Type 0 where
  complete :
      r ≡ ok accepted
      → Routed event sent w'.sent (ok tt)
      → w'.interactions ≡ audit_row event ∷ rows
      → Delivered event sent rows w' r
  incomplete :
      (e : Exn) (routed : Result (Unit {0}))
      → r ≡ raise e
      → Routed event sent w'.sent routed
      → w'.interactions ≡ rows
      → Delivered event sent rows w' r

module _ {W : Type 0} (r : Redis W) (broker : ℕ → Sending) (database : ℕ → Outcome)
    (event : Event) where
  deliver_routed :
      (w : World r.Store)
      → (route broker event w).1 ≡ ok tt
      → deliver r broker database event w
        ≡ store database (audit_row event) (route broker event w).0
  unfolding deliver
  deliver_routed w h = ground arith

  deliver_raised :
      (w : World r.Store) (e : Exn)
      → (route broker event w).1 ≡ raise e
      → deliver r broker database event w ≡ ((route broker event w).0, raise e)
  unfolding deliver
  deliver_raised w e h = ground arith

  abbrev delivery : World r.Store → World r.Store × Result String
  delivery = deliver r broker database event

  deliver-Delivered :
      (w : World r.Store)
      → ((delivery w).0.redis ≡ w.redis)
        × Delivered event w.sent w.interactions (delivery w).0 (delivery w).1
  deliver-Delivered w =
      let (redis, rows, end) = route_lem broker event w in
      elim (Result-cases (route broker event w).1) [
        | inr (e, raised) ↦
            rw (deliver_raised w e raised)
              (redis, incomplete e (raise e) refl (rw raised at end) rows)
        | inl (_, returned) ↦
            let (redis', sent', end') =
              store-Stored database (audit_row event) (route broker event w).0 in
            let routed : Routed event w.sent (route broker event w).0.sent (ok tt) =
              rw returned at end in
            rw (deliver_routed w returned) (
              redis' ∙ redis,
              elim end' [
                | inl (ok', rows') ↦
                    complete ok' (rw sent' routed) (rows' ∙ ap (◌∷◌ (audit_row event)) rows)
                | inr (e, raised, rows') ↦
                    incomplete e (ok tt) raised (rw sent' routed) (rows' ∙ rows)
              ],
            )
      ]

  abbrev answer : World r.Store → World r.Store × Result String
  answer = ingest_event r broker database event

  ingest_checked :
      (w w' : World r.Store) → validate r event w ≡ (w', ok tt) → answer w ≡ delivery w'
  unfolding ingest_event
  ingest_checked w w' h = ground arith

  ingest_rejected :
      (w : World r.Store)
      → validate r event w ≡ (w, raise Exn.event_validation)
      → answer w ≡ (w, raise Exn.event_validation)
  unfolding ingest_event
  ingest_rejected w h = ground arith

  ingest_duplicate :
      (w : World r.Store)
      → validate r event w ≡ (w, raise Exn.duplicate_event)
      → answer w ≡ (w, ok duplicate_ignored)
  unfolding ingest_event
  ingest_duplicate w h = ground arith

  -- An event dated more than five minutes ahead of the clock or more than seven days behind it is
  -- answered by the validation error, and changes nothing.
  pub ingest_event_untimely :
      (w : World r.Store) (ts : Time)
      → event.client_timestamp ≡ some ts
      → (w.clock + max_clock_skew_seconds * second < ts)
        ⊎ (ts + max_event_age_seconds * second < w.clock)
      → answer w ≡ (w, raise Exn.event_validation)
  ingest_event_untimely w ts sent outside =
      ingest_rejected w (validate_untimely r event w ts sent outside)

  module _ (laws : Laws r) where
    -- A timely event that is not yet known is marked as seen in Redis. Then it is put on both topics,
    -- on each once or, after retries, up to four times, and then into the interactions table, and the
    -- answer is "accepted"; or the answer is an error, and the table is as before. So "accepted" waits
    -- for both acknowledgements and for the commit. In both cases the mark stays.
    pub ingest_event-Delivered :
        (w : World r.Store)
        → IsTimely w.clock event
        → laws.live w.redis w.clock (key r laws event) ≡ none
        → ((answer w).0.redis ≡ (marked r laws event w).redis)
          × Delivered event w.sent w.interactions (answer w).0 (answer w).1
    ingest_event-Delivered w timely free =
        rw (ingest_checked w _ (validate_new r laws event w timely free))
          (deliver-Delivered (marked r laws event w))

    -- A timely event that is not yet known is sent, and the same event comes again within the hour,
    -- when the entry of its key in Redis is what the first call left and it is still timely. Then the
    -- answer is "duplicate_ignored" and nothing changes, however the delivery ended the first time,
    -- also when it raised.
    pub ingest_event_repeated :
        (w w' : World r.Store)
        → IsTimely w.clock event
        → IsTimely w'.clock event
        → laws.live w.redis w.clock (key r laws event) ≡ none
        → laws.live w'.redis w'.clock (key r laws event)
          ≡ laws.live (answer w).0.redis w'.clock (key r laws event)
        → w.clock ≤ w'.clock
        → w'.clock < w.clock + dedupe_key_ttl_seconds * second
        → answer w' ≡ (w', ok duplicate_ignored)
    ingest_event_repeated w w' timely timely' free same after within =
        let (redis, _) = ingest_event-Delivered w timely free in
        let new = validate_new r laws event w timely free in
        let kept =
          same
          ∙ ap (λ s. laws.live s w'.clock (key r laws event))
              (redis ∙ ap (λ x. x.0.redis) (sym new)) in
        let (_, again) = validate_once r laws event w w' timely timely' free kept after within in
        ingest_duplicate w' again

    -- A producer is set, but the broker takes nothing: the next four calls end in a KafkaError and
    -- store nothing. A timely event that is not yet known is then answered by the KafkaError, and
    -- nothing is sent or recorded. The client's retry within the hour, with the key's entry in Redis
    -- as the first call left it, is answered by "duplicate_ignored", and again nothing is sent or
    -- recorded, whatever the broker does by then: the event is lost.
    pub ingest_event_lost :
        (w w' : World r.Store)
        → IsTimely w.clock event
        → IsTimely w'.clock event
        → laws.live w.redis w.clock (key r laws event) ≡ none
        → w.kafka_started ≡ true
        → ((i : ℕ) → i < 4 → broker (w.broker_calls + i) ≡ Sending.kafka_failed false)
        → laws.live w'.redis w'.clock (key r laws event)
          ≡ laws.live (answer w).0.redis w'.clock (key r laws event)
        → w.clock ≤ w'.clock
        → w'.clock < w.clock + dedupe_key_ttl_seconds * second
        → ((answer w).1 ≡ raise Exn.kafka_error)
          × ((answer w).0.sent ≡ w.sent)
          × ((answer w).0.interactions ≡ w.interactions)
          × (answer w' ≡ (w', ok duplicate_ignored))
    ingest_event_lost w w' timely timely' free started refused same after within =
        let here = marked r laws event w in
        let (raised, sent) =
          send_refused broker (user_message event) default_max_retries here started refused in
        let (_, rows) = send-frame broker (user_message event) default_max_retries here in
        let first = route_first broker event here Exn.kafka_error raised in
        let reached = ingest_checked w here (validate_new r laws event w timely free) in
        let ended =
          reached
          ∙ deliver_raised here Exn.kafka_error (ap (λ x. x.1) first)
          ∙ ap (λ x. (x.0, raise Exn.kafka_error)) first in
        (
          ap (λ x. x.1) ended,
          ap (λ x. x.0.sent) ended ∙ sent,
          ap (λ x. x.0.interactions) ended ∙ rows,
          ingest_event_repeated w w' timely timely' free same after within,
        )
