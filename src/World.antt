-- ===== src/World.antt =====
-- What the request handlers act on, and code that raises: a state-passing function whose changes to
-- the state stay when an exception is raised.
use nexusfeed.Prelude.{ℕ, Bool, Option, List, String, ◌≡◌, refl, ◌⊎◌, inl, inr}
use nexusfeed.Prelude.Int.{ℤ}
use nexusfeed.Types.{Uuid, Time, Event}

-- nexusfeed/exceptions.py, the built-in exceptions, and those of the libraries, as far as raised
pub data Exn : Type 0 where
  feature_not_found : Exn
  event_validation : Exn
  duplicate_event : Exn
  experiment_not_found : Exn
  index_not_ready : Exn
  runtime_error value_error index_error type_error : Exn
  kafka_error library_error database_error : Exn
  -- a loop of the model that has used up its fuel
  out_of_fuel : Exn

pub data Result {ℓ} (A : Type ℓ) : Type ℓ where
  ok : A → Result A
  raise : Exn → Result A

pub Result-cases {ℓ} :
    {A : Type ℓ} (r : Result A) → ((a : A) × (r ≡ ok a)) ⊎ ((e : Exn) × (r ≡ raise e))
Result-cases (ok a) = inl (a, refl)
Result-cases (raise e) = inr (e, refl)

-- how one call of a library ends: it returns, raises a KafkaError, or raises something else
pub data Outcome : Type 0 where
  returned kafka_failed failed : Outcome

-- How one call of the broker ends: with the acknowledgement of the message, with a KafkaError, or
-- with something else. A call that raises may have stored the message all the same, as when the
-- acknowledgement is lost.
pub data Sending : Type 0 where
  acknowledged : Sending
  kafka_failed failed : (stored : Bool) → Sending

-- the payloads that are sent: an event, or the impression of a feed
pub data Payload : Type 0 where
  event : Event → Payload
  impression : Uuid → List String → Payload

-- a Kafka message as the producer is given it
pub record Message : Type 0 where
  pub topic : String
  pub value : Payload
  pub key : String

-- a row of the interactions table, as far as the handlers fill it
pub record Interaction : Type 0 where
  pub user_id : Uuid
  pub item_id : Uuid
  pub event_type : String
  pub dwell_ms : Option ℤ
  pub session_id : Option Uuid

-- a line of the access log
pub record AccessLine : Type 0 where
  pub method : String
  pub path : String
  pub status_code : ℕ

pub record World (S : Type 0) : Type 0 where
  pub clock : Time
  pub redis : S
  -- whether the producer is set, which `KafkaEventProducer.start` does
  pub kafka_started : Bool
  -- how often the broker was asked to take a message, and the messages that it stored, newest first
  pub broker_calls : ℕ
  pub sent : List Message
  -- how often the database was written to, and the committed interactions, newest first
  pub writes : ℕ
  pub interactions : List Interaction
  -- the access log, newest line first
  pub access_log : List AccessLine

abbrev pub M : Type 0 → Type 0 → Type 0
M S A = World S → World S × Result A

module _ {S : Type 0} where
  abbrev pub pure : {A : Type 0} → A → M S A
  pure a w = (w, ok a)

  abbrev pub fail : {A : Type 0} → Exn → M S A
  fail e w = (w, raise e)

  infixl 5 ◌>>=◌ ◌>>◌
  abbrev pub ◌>>=◌ : {A B : Type 0} → M S A → (A → M S B) → M S B
  ◌>>=◌ m f w = let (w', r) = m w in elim r [ ok a ↦ f a w' | raise e ↦ (w', raise e) ]

  abbrev pub ◌>>◌ : {B : Type 0} → M S (Unit {0}) → M S B → M S B
  m >> k = m >>= λ _. k

  -- `try: m` with one handler for every exception
  abbrev pub catch : {A : Type 0} → M S A → (Exn → M S A) → M S A
  catch m h w = let (w', r) = m w in elim r [ ok a ↦ (w', ok a) | raise e ↦ h e w' ]
