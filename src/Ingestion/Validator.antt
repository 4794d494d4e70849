-- ===== src/Ingestion/Validator.antt =====
-- nexusfeed/ingestion/event_validator.py: `EventValidator`.
pub mod Checks
use nexusfeed.Prelude.{ℕ, ◌+◌, ◌*◌, Bool, true, false, Option, none, some, if◌then◌else◌, ltb}
use nexusfeed.Types.{Time, Event}
use nexusfeed.Redis.{Redis, Key, Value, Command, Reply, second}
use nexusfeed.Redis.Client.{run}
use nexusfeed.World.{World, M, Exn, Result, ok, raise, pure, fail, ◌>>=◌, ◌>>◌}

-- seconds
abbrev pub max_clock_skew_seconds : ℕ
max_clock_skew_seconds = 300

abbrev pub max_event_age_seconds : ℕ
max_event_age_seconds = 7 * 24 * 3600

abbrev pub dedupe_key_ttl_seconds : ℕ
dedupe_key_ttl_seconds = 3600

-- the two tests of a timestamp `ts` at the time `now`
abbrev pub in_future : Time → Time → Bool
in_future now ts = ltb (now + max_clock_skew_seconds * second) ts

abbrev pub too_old : Time → Time → Bool
too_old now ts = ltb (ts + max_event_age_seconds * second) now

module _ {W : Type 0} (r : Redis W) where
  open r use {Store}

  unfoldable pub check_timestamp : Event → M Store (Unit {0})
  check_timestamp event w = elim event.client_timestamp [
    | none ↦ (w, ok tt)
    | some ts ↦
        if in_future w.clock ts
        then (w, raise Exn.event_validation)
        else if too_old w.clock ts
        then (w, raise Exn.event_validation)
        else (w, ok tt)
  ]

  -- `if not was_set`: the client returns None where the key was there
  abbrev pub require_set : Reply W → M Store (Unit {0})
  require_set Reply.nil = fail Exn.duplicate_event
  require_set _ = pure tt

  unfoldable pub check_duplicate : Event → M Store (Unit {0})
  check_duplicate event = do
    was_set ←
        run r (Command.set_nx (Key.dedupe_event event.event_id) Value.one dedupe_key_ttl_seconds)
    require_set was_set

  unfoldable pub validate : Event → M Store (Unit {0})
  unfolding check_timestamp check_duplicate
  validate event = do check_timestamp event; check_duplicate event
