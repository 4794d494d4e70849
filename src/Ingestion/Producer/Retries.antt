-- ===== src/Ingestion/Producer/Retries.antt =====
-- How often `send` asks the broker, how long it waits, and what the last call means.
use native.Mathlib.Nat.{add-zero}
use native.Mathlib.Numerals.{add-one}
use nexusfeed.Prelude.{
  ℕ, zero, suc, ◌+◌, ◌*◌, ◌≤◌, ◌<◌, ◌≡◌, refl, ap, sym, ◌∙◌, true, false, Bool, List, ◌∷◌,
  if◌then◌else◌, ltb, arith, Bool-cases, inl, inr,
}
use nexusfeed.World.{World, Message, Exn, Outcome, Sending, Result, ok, raise}
use nexusfeed.Ingestion.Producer.{is_stored, outcome_of, backoff, send_loop, send}
use nexusfeed.Ingestion.Producer.Copies.{Sending-cases, stored_in, copies}

-- What the last of the calls of the broker means for the caller, where `stored` of the calls stored
-- the message.
pub data Decides (last_try : Type 0) (stored : ℕ) (r : Result (Unit {0})) (sending : Sending)
    : Type 0 where
  delivered :
      sending ≡ Sending.acknowledged → r ≡ ok tt → 0 < stored → Decides last_try stored r sending
  broken :
      (b : Bool)
      → sending ≡ Sending.failed b
      → r ≡ raise Exn.library_error
      → Decides last_try stored r sending
  exhausted :
      (b : Bool)
      → sending ≡ Sending.kafka_failed b
      → last_try
      → r ≡ raise Exn.kafka_error
      → Decides last_try stored r sending

-- The broker is asked `retries + 1` times. All calls but the last end in a KafkaError, and the last
-- one decides; a KafkaError decides only when no retry is left. The message is sent as often as a
-- call stored it.
pub record Retried {S : Type 0} (broker : ℕ → Sending) (m : Message) (limit : ℕ) (w w' : World S)
    (r : Result (Unit {0})) (retries : ℕ) : Type 0 where
  pub within : retries ≤ limit
  pub asked : w'.broker_calls ≡ w.broker_calls + retries + 1
  pub failures :
      (i : ℕ) → i < retries → outcome_of (broker (w.broker_calls + i)) ≡ Outcome.kafka_failed
  pub last :
      Decides
        (retries ≡ limit)
        (stored_in broker w.broker_calls (suc retries))
        r
        (broker (w.broker_calls + retries))
  pub sent : w'.sent ≡ copies (stored_in broker w.broker_calls (suc retries)) m w.sent
  pub waited : w'.clock ≤ w.clock + 2_000_000 * retries
  pub redis : w'.redis ≡ w.redis
  pub interactions : w'.interactions ≡ w.interactions

backoff-le : (n : ℕ) → backoff n ≤ 2_000_000
unfolding backoff
backoff-le n = omega arith

module _ {S : Type 0} (broker : ℕ → Sending) (m : Message) where
  abbrev loop : ℕ → ℕ → ℕ → World S → World S × Result (Unit {0})
  loop fuel max_retries attempt = send_loop broker fuel max_retries attempt m

  abbrev asked_once : World S → World S
  asked_once w = record w {
    broker_calls = w.broker_calls + 1;
    sent = if is_stored (broker w.broker_calls) then m ∷ w.sent else w.sent;
  }

  abbrev slept : ℕ → World S → World S
  slept attempt w = record (asked_once w) { clock = w.clock + backoff attempt }

  module _ (fuel max_retries attempt : ℕ) (w : World S) where
    on_returned :
        broker w.broker_calls ≡ Sending.acknowledged
        → loop (suc fuel) max_retries attempt w ≡ (asked_once w, ok tt)
    unfolding send_loop
    on_returned e =
        let seen : outcome_of (broker w.broker_calls) ≡ Outcome.returned = ap outcome_of e in
        rw (seen, send_loop) refl

    on_failed :
        (b : Bool)
        → broker w.broker_calls ≡ Sending.failed b
        → loop (suc fuel) max_retries attempt w ≡ (asked_once w, raise Exn.library_error)
    unfolding send_loop
    on_failed b e =
        let seen : outcome_of (broker w.broker_calls) ≡ Outcome.failed = ap outcome_of e in
        rw (seen, send_loop) refl

    on_last :
        (b : Bool)
        → broker w.broker_calls ≡ Sending.kafka_failed b
        → max_retries < attempt + 1
        → loop (suc fuel) max_retries attempt w ≡ (asked_once w, raise Exn.kafka_error)
    unfolding send_loop
    on_last b e h =
        let done : ltb max_retries (attempt + 1) ≡ true = ground arith in
        let seen : outcome_of (broker w.broker_calls) ≡ Outcome.kafka_failed = ap outcome_of e in
        rw (seen, send_loop, done) refl

    on_retry :
        (b : Bool)
        → broker w.broker_calls ≡ Sending.kafka_failed b
        → attempt + 1 ≤ max_retries
        → loop (suc fuel) max_retries attempt w
          ≡ loop fuel max_retries (attempt + 1) (slept (attempt + 1) w)
    unfolding send_loop
    on_retry b e h =
        let more : ltb max_retries (attempt + 1) ≡ false = ground arith in
        let seen : outcome_of (broker w.broker_calls) ≡ Outcome.kafka_failed = ap outcome_of e in
        rw (seen, send_loop, more) refl

  Retried-cons :
      {limit retries : ℕ} {w w' : World S} {r : Result (Unit {0})} (attempt : ℕ) (b : Bool)
      → broker w.broker_calls ≡ Sending.kafka_failed b
      → Retried broker m limit (slept attempt w) w' r retries
      → Retried broker m (suc limit) w w' r (suc retries)
  Retried-cons {limit} {retries} {w} {w'} {r} attempt b e t = record {
    within = omega (arith, t.within);
    asked = omega (arith, t.asked);
    failures = before;
    last = shift (ap broker (omega arith)) t.last;
    sent = counted t.sent;
    waited = omega (arith, t.waited, backoff-le attempt);
    redis = t.redis;
    interactions = t.interactions;
  }
    where
      next : (i : ℕ) → w.broker_calls + 1 + i ≡ w.broker_calls + suc i
      next i = omega arith

      before :
          (i : ℕ)
          → i < suc retries
          → outcome_of (broker (w.broker_calls + i)) ≡ Outcome.kafka_failed
      before zero h = rw (add-zero, e) refl
      before (suc i) h = rw (next i) at (t.failures i (omega arith))

      counted :
          {ms : List Message}
          → ms
            ≡ copies
                (stored_in broker (w.broker_calls + 1) (suc retries))
                m
                (if is_stored (broker w.broker_calls) then m ∷ w.sent else w.sent)
          → ms ≡ copies (stored_in broker w.broker_calls (suc (suc retries))) m w.sent
      counted h = elim (Bool-cases (is_stored (broker w.broker_calls))) [
        | inl kept ↦ rw kept (rw kept at h)
        | inr lost ↦ rw lost (rw lost at h)
      ]

      more :
          (n : ℕ)
          → stored_in broker (w.broker_calls + 1) n ≤ stored_in broker w.broker_calls (suc n)
      more n = elim (Bool-cases (is_stored (broker w.broker_calls))) [
        | inl kept ↦ rw kept (omega arith)
        | inr lost ↦ rw lost (omega arith)
      ]

      shift :
          {o o' : Sending}
          → o ≡ o'
          → Decides (retries ≡ limit) (stored_in broker (w.broker_calls + 1) (suc retries)) r o
          → Decides
              (suc retries ≡ suc limit)
              (stored_in broker w.broker_calls (suc (suc retries)))
              r
              o'
      shift same (delivered x y z) =
          delivered (sym same ∙ x) y (omega (arith, z, more (suc retries)))
      shift same (broken b x y) = broken b (sym same ∙ x) y
      shift same (exhausted b x l y) = exhausted b (sym same ∙ x) (ap suc l) y

  abbrev OutcomeOf : (limit : ℕ) (w : World S) → World S × Result (Unit {0}) → Type 0
  OutcomeOf limit w end = (retries : ℕ) × Retried broker m limit w end.0 end.1 retries

  -- the first call decides
  at_once :
      (limit : ℕ) (w w' : World S) (r : Result (Unit {0}))
      → w' ≡ asked_once w
      → Decides (0 ≡ limit) (stored_in broker w.broker_calls 1) r (broker w.broker_calls)
      → OutcomeOf limit w (w', r)
  at_once limit w w' r once d = rw once (
    0,
    record {
      within = omega arith;
      asked = omega arith;
      failures = λ i h. absurd (omega arith);
      last = rw add-zero d;
      sent = elim (Bool-cases (is_stored (broker w.broker_calls))) [
        | inl kept ↦ rw kept refl
        | inr lost ↦ rw lost refl
      ];
      waited = omega arith;
      redis = refl;
      interactions = refl;
    },
  )

  stored_once :
      (w : World S)
      → broker w.broker_calls ≡ Sending.acknowledged
      → 0 < stored_in broker w.broker_calls 1
  stored_once w e = rw e (omega arith)

  send_loop-Retried :
      (limit max_retries attempt : ℕ) (w : World S)
      → attempt + limit ≡ max_retries
      → OutcomeOf limit w (loop (suc limit) max_retries attempt w)
  send_loop-Retried zero max_retries attempt w a = elim (Sending-cases (broker w.broker_calls)) [
    | inl e ↦
        rw (on_returned 0 max_retries attempt w e)
          (at_once 0 w _ _ refl (delivered e refl (stored_once w e)))
    | inr (inl (b, e)) ↦
        rw (on_last 0 max_retries attempt w b e (omega arith))
          (at_once 0 w _ _ refl (exhausted b e refl refl))
    | inr (inr (b, e)) ↦
        rw (on_failed 0 max_retries attempt w b e) (at_once 0 w _ _ refl (broken b e refl))
  ]
  send_loop-Retried (suc limit) max_retries attempt w a =
      elim (Sending-cases (broker w.broker_calls)) [
        | inl e ↦
            rw (on_returned (suc limit) max_retries attempt w e)
              (at_once (suc limit) w _ _ refl (delivered e refl (stored_once w e)))
        | inr (inl (b, e)) ↦
            let (retries, t) =
              send_loop-Retried limit max_retries (attempt + 1) (slept (attempt + 1) w)
                (omega arith) in
            rw (on_retry (suc limit) max_retries attempt w b e (omega arith))
              (suc retries, Retried-cons (attempt + 1) b e t)
        | inr (inr (b, e)) ↦
            rw (on_failed (suc limit) max_retries attempt w b e)
              (at_once (suc limit) w _ _ refl (broken b e refl))
      ]

  send_started :
      (max_retries : ℕ) (w : World S)
      → w.kafka_started ≡ true
      → send broker max_retries m w ≡ loop (suc max_retries) max_retries 0 w
  unfolding send
  send_started max_retries w started = simp (started, add-one)

  -- Once a producer is set, `send` ends after at most `max_retries` retries: the broker is
  -- asked once more than there are retries, every call but the last ended in a KafkaError, and the
  -- last one decides. If it was acknowledged, `send` returns; if it raised a KafkaError, all retries
  -- were used up, and the caller gets the error. The message is on the topic as often as a call stored
  -- it: a call whose acknowledgement was lost and its retry are two copies, and when `send` returns
  -- there is one at least. In between the caller waits at most two seconds a retry.
  pub send-Retried :
      (max_retries : ℕ) (w : World S)
      → w.kafka_started ≡ true
      → (retries : ℕ) × Retried broker m max_retries w
          (send broker max_retries m w).0
          (send broker max_retries m w).1
          retries
  send-Retried max_retries w started =
      rw (send_started max_retries w started)
        (send_loop-Retried max_retries max_retries 0 w (omega arith))
