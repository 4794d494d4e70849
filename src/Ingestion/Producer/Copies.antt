-- ===== src/Ingestion/Producer/Copies.antt =====
-- How often the broker stored a message, over a run of calls of `send_and_wait`.
use native.Mathlib.Nat.{add-zero}
use nexusfeed.Prelude.{
  ℕ, zero, suc, ◌+◌, ◌≤◌, ◌<◌, ◌≡◌, refl, ap, ◌∙◌, false, Bool, List, ◌∷◌, if◌then◌else◌, arith,
  inl, inr, ◌⊎◌,
}
use nexusfeed.World.{Message, Outcome, Sending}
use nexusfeed.Ingestion.Producer.{is_stored}

pub Outcome-cases :
    (o : Outcome) → (o ≡ Outcome.returned) ⊎ (o ≡ Outcome.kafka_failed) ⊎ (o ≡ Outcome.failed)
Outcome-cases Outcome.returned = inl refl
Outcome-cases Outcome.kafka_failed = inr (inl refl)
Outcome-cases Outcome.failed = inr (inr refl)

pub Sending-cases :
    (o : Sending)
    → (o ≡ Sending.acknowledged)
      ⊎ ((b : Bool) × (o ≡ Sending.kafka_failed b))
      ⊎ ((b : Bool) × (o ≡ Sending.failed b))
Sending-cases Sending.acknowledged = inl refl
Sending-cases (Sending.kafka_failed b) = inr (inl (b, refl))
Sending-cases (Sending.failed b) = inr (inr (b, refl))

-- how many of the `count` calls from number `from` on stored the message
abbrev pub stored_in : (ℕ → Sending) → (from count : ℕ) → ℕ
stored_in broker from zero = 0
stored_in broker from (suc count) =
    let rest = stored_in broker (from + 1) count in
    if is_stored (broker from) then suc rest else rest

pub stored_in-le : (broker : ℕ → Sending) (from count : ℕ) → stored_in broker from count ≤ count
stored_in-le broker from zero = omega arith
stored_in-le broker from (suc count) =
    let rest = stored_in-le broker (from + 1) count in ground arith

pub stored_in-none :
    (broker : ℕ → Sending) (from count : ℕ)
    → ((i : ℕ) → i < count → broker (from + i) ≡ Sending.kafka_failed false)
    → stored_in broker from count ≡ 0
stored_in-none broker from zero refused = refl
stored_in-none broker from (suc count) refused =
    let here : broker from ≡ Sending.kafka_failed false =
      rw add-zero at (refused 0 (omega arith)) in
    let next : (i : ℕ) → from + 1 + i ≡ from + suc i = λ i. omega arith in
    rw here (
      stored_in-none broker (from + 1) count
        (λ i h. ap broker (next i) ∙ refused (suc i) (omega arith)))

-- `count` copies of a message in front of a list
abbrev pub copies : (count : ℕ) → Message → List Message → List Message
copies zero m ms = ms
copies (suc count) m ms = copies count m (m ∷ ms)
