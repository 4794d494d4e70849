-- ===== src/Ingestion/Producer/Reports.antt =====
-- What the callers of `send` learn from its result.
use nexusfeed.Prelude.{
  ℕ, zero, suc, ◌+◌, ◌≤◌, ◌<◌, ◌≡◌, refl, true, false, List, arith, Bool-cases, inl, inr, ◌⊎◌,
}
use nexusfeed.World.{World, Message, Exn, Sending, Result, ok, raise}
use nexusfeed.Ingestion.Producer.{send}
use nexusfeed.Ingestion.Producer.Copies.{stored_in, stored_in-le, stored_in-none, copies}
use nexusfeed.Ingestion.Producer.Retries.{
  Decides, delivered, broken, exhausted, Retried, send-Retried,
}

module _ {S : Type 0} (broker : ℕ → Sending) (m : Message) where
  -- A broker that takes nothing: every try ends in a KafkaError and stores nothing, and so does `send`.
  pub send_refused :
      (max_retries : ℕ) (w : World S)
      → w.kafka_started ≡ true
      → ((i : ℕ) → i < suc max_retries → broker (w.broker_calls + i) ≡ Sending.kafka_failed false)
      → ((send broker max_retries m w).1 ≡ raise Exn.kafka_error)
        × ((send broker max_retries m w).0.sent ≡ w.sent)
  send_refused max_retries w started refused =
      let (retries, t) = send-Retried broker m max_retries w started in
      let le = t.within in
      let none_stored =
        stored_in-none broker w.broker_calls (suc retries) (λ i h. refused i (omega arith)) in
      (by_end t.last (refused retries (omega arith)), rw none_stored at t.sent)
    where
      by_end :
          {last : Type 0} {stored : ℕ} {r : Result (Unit {0})} {o : Sending}
          → Decides last stored r o
          → o ≡ Sending.kafka_failed false
          → r ≡ raise Exn.kafka_error
      by_end (delivered e _ _) h = absurd (cc)
      by_end (broken b e _) h = absurd (cc)
      by_end (exhausted _ _ _ e) h = e

  -- before `start` every `send` raises, and the broker is not asked
  pub send_unstarted :
      (max_retries : ℕ) (w : World S)
      → w.kafka_started ≡ false
      → send broker max_retries m w ≡ (w, raise Exn.runtime_error)
  unfolding send
  send_unstarted max_retries w stopped = simp stopped

pub Result-cases : (r : Result (Unit {0})) → (r ≡ ok tt) ⊎ ((e : Exn) × (r ≡ raise e))
Result-cases (ok tt) = inl refl
Result-cases (raise e) = inr (e, refl)

module _ {S : Type 0} (broker : ℕ → Sending) (m : Message) (n : ℕ) (w : World S) where
  by_start :
      (P : World S × Result (Unit {0}) → Type 0)
      → P (w, raise Exn.runtime_error)
      → ((retries : ℕ)
          → Retried broker m n w (send broker n m w).0 (send broker n m w).1 retries
          → P (send broker n m w))
      → P (send broker n m w)
  by_start P stopped started = elim (Bool-cases w.kafka_started) [
    | inl on ↦ let (retries, t) = send-Retried broker m n w on in started retries t
    | inr off ↦ rw (send_unstarted broker m n w off) stopped
  ]

  -- whatever its outcome, `send` leaves Redis and the database alone
  pub send-frame :
      ((send broker n m w).0.redis ≡ w.redis)
      × ((send broker n m w).0.interactions ≡ w.interactions)
  send-frame =
      by_start (λ x. (x.0.redis ≡ w.redis) × (x.0.interactions ≡ w.interactions)) (refl, refl)
        (λ retries t. (t.redis, t.interactions))

  pub send_returned :
      (send broker n m w).1 ≡ ok tt
      → (again : ℕ) × (again ≤ n) × ((send broker n m w).0.sent ≡ copies (suc again) m w.sent)
  send_returned =
      by_start
        (λ x. x.1 ≡ ok tt → (again : ℕ) × (again ≤ n) × (x.0.sent ≡ copies (suc again) m w.sent))
        (λ h. absurd (cc))
        (λ retries t.
          by_end _ (stored_in-le broker w.broker_calls (suc retries)) t.within t.sent t.last)
    where
      by_end :
          {last : Type 0} {ms : List Message} {r : Result (Unit {0})} {o : Sending} {retries : ℕ}
          (stored : ℕ)
          → stored ≤ suc retries
          → retries ≤ n
          → ms ≡ copies stored m w.sent
          → Decides last stored r o
          → r ≡ ok tt
          → (again : ℕ) × (again ≤ n) × (ms ≡ copies (suc again) m w.sent)
      by_end zero le le' s (delivered _ _ some_stored) h = absurd (omega arith)
      by_end (suc again) le le' s (delivered _ _ _) h = (again, omega arith, s)
      by_end stored le le' s (broken _ _ e) h = absurd (cc)
      by_end stored le le' s (exhausted _ _ _ e) h = absurd (cc)

  -- however it ends, at most `n + 1` copies are sent
  pub send-copies :
      (count : ℕ) × (count ≤ n + 1) × ((send broker n m w).0.sent ≡ copies count m w.sent)
  send-copies =
      by_start (λ x. (count : ℕ) × (count ≤ n + 1) × (x.0.sent ≡ copies count m w.sent))
        (0, omega arith, refl)
        (λ retries t. (
          stored_in broker w.broker_calls (suc retries),
          omega (arith, stored_in-le broker w.broker_calls (suc retries), t.within),
          t.sent,
        ))
