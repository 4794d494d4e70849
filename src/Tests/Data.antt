-- ===== src/Tests/Data.antt =====
-- The inputs of the tests.
use mathlib.Core.List.{Nodup, Nodup-cons, Nodup-nil, mem-cons, not-mem-nil}
use mathlib.Core.Logic.Or
use mathlib.Core.HLevel.{⊥_prop}
use nexusfeed.Prelude.{
  ℕ, zero, suc, ◌≡◌, refl, ◌==◌, string_eq, Bool, true, false, none, [], ◌∷◌, String,
}
use nexusfeed.Types.{Event, EventType, Time, ScoredItem}
use nexusfeed.Float.{Float, hundredths}
use nexusfeed.World.{World, Outcome, Sending}
use nexusfeed.Tests.Store.{Store}

abbrev pub event : Event
event = record {
  event_id = "e1";
  user_id = "u1";
  item_id = "i1";
  event_type = EventType.click;
  dwell_ms = none;
  session_id = none;
  device = none;
  client_timestamp = none;
  created_at = 1_000_000_000_000;
}

-- a million seconds after the epoch
abbrev pub noon : Time
noon = 1_000_000_000_000

abbrev pub world_at : Time → Bool → World Store
world_at t started = record {
  clock = t;
  redis = λ k. none;
  kafka_started = started;
  broker_calls = 0;
  sent = [];
  writes = 0;
  interactions = [];
  access_log = [];
}

-- the first call stores the message and loses the acknowledgement, the others are acknowledged
abbrev pub lossy : ℕ → Sending
lossy zero = Sending.kafka_failed true
lossy (suc n) = Sending.acknowledged

-- no call stores anything
abbrev pub down : ℕ → Sending
down n = Sending.kafka_failed false

-- the first call ends in a KafkaError, the others return
abbrev pub flaky : ℕ → Outcome
flaky zero = Outcome.kafka_failed
flaky (suc n) = Outcome.returned

abbrev pub reliable : ℕ → Outcome
reliable n = Outcome.returned

abbrev pub item : String → ℕ → ScoredItem ℕ
item id score = record {
  item_id = id;
  score = score;
  category = none;
  is_trending = false;
  freshness_boosted = false;
  explanation = none;
}

-- scores are hundredths
instance abbrev pub hundredths_float : Float ℕ
hundredths_float = hundredths

pub apart : (a b : String) → (a == b) ≡ false → ¬ (a ≡ b)
apart a b other same = let equal = (string_eq.beq_iff a b).1 same in absurd (cc)

-- "a", "b" and "c" are three ids
pub distinct_abc : Nodup {A = String} ("a" ∷ "b" ∷ "c" ∷ [])
distinct_abc = Nodup-cons.1 (
  λ m.
      Or.elim ⊥_prop (mem-cons.0 m) (apart "a" "b" refl)
        (λ n. Or.elim ⊥_prop (mem-cons.0 n) (apart "a" "c" refl) not-mem-nil),
  Nodup-cons.1 (
    λ m. Or.elim ⊥_prop (mem-cons.0 m) (apart "b" "c" refl) not-mem-nil,
    Nodup-cons.1 (not-mem-nil, Nodup-nil),
  ),
)
