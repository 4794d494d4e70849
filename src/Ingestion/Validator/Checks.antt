-- ===== src/Ingestion/Validator/Checks.antt =====
-- What `EventValidator.validate` accepts.
use nexusfeed.Prelude.{
  ◌+◌, ◌*◌, ◌≤◌, ◌<◌, ◌≡◌, refl, ap, ◌∙◌, none, some, inl, inr, ◌⊎◌, arith, Option-cases,
}
use nexusfeed.Types.{Time, Event}
use nexusfeed.Redis.{Redis, Laws, Key, Value, Command, Reply, second}
use nexusfeed.World.{World, Exn, ok, raise}
use nexusfeed.Ingestion.Validator.{
  max_clock_skew_seconds, max_event_age_seconds, dedupe_key_ttl_seconds, check_timestamp,
  check_duplicate, validate,
}

-- the timestamp that the client sent, if any, is at most five minutes ahead and seven days behind
abbrev pub IsTimely : Time → Event → Type 0
IsTimely now event =
    (ts : Time)
    → event.client_timestamp ≡ some ts
    → (ts ≤ now + max_clock_skew_seconds * second) × (now ≤ ts + max_event_age_seconds * second)

module _ {W : Type 0} (r : Redis W) where
  check_timestamp_timely :
      (event : Event) (w : World r.Store)
      → IsTimely w.clock event
      → check_timestamp r event w ≡ (w, ok tt)
  unfolding check_timestamp
  check_timestamp_timely event w timely = elim (Option-cases event.client_timestamp) [
    | inl absent ↦ ground arith
    | inr (ts, sent) ↦ let bounds = timely ts sent in ground arith
  ]

  -- An event dated more than five minutes ahead of the clock or more than seven days behind it is
  -- rejected, and Redis is not asked.
  pub validate_untimely :
      (event : Event) (w : World r.Store) (ts : Time)
      → event.client_timestamp ≡ some ts
      → (w.clock + max_clock_skew_seconds * second < ts)
        ⊎ (ts + max_event_age_seconds * second < w.clock)
      → validate r event w ≡ (w, raise Exn.event_validation)
  unfolding validate
  validate_untimely event w ts sent outside = ground arith

  validate_passed :
      (event : Event) (w : World r.Store)
      → IsTimely w.clock event
      → validate r event w ≡ check_duplicate r event w
  unfolding validate
  validate_passed event w timely =
      let passed = check_timestamp_timely event w timely in ground arith

  abbrev mark : Event → Command W
  mark event = Command.set_nx (Key.dedupe_event event.event_id) Value.one dedupe_key_ttl_seconds

  check_duplicate_done :
      (event : Event) (w : World r.Store) (s : r.Store)
      → r.exec w.clock w.redis (mark event) ≡ (s, Reply.done)
      → check_duplicate r event w ≡ (record w { redis = s }, ok tt)
  unfolding check_duplicate
  check_duplicate_done event w s set = rw set refl

  check_duplicate_nil :
      (event : Event) (w : World r.Store) (s : r.Store)
      → r.exec w.clock w.redis (mark event) ≡ (s, Reply.nil)
      → check_duplicate r event w ≡ (record w { redis = s }, raise Exn.duplicate_event)
  unfolding check_duplicate
  check_duplicate_nil event w s taken = rw taken refl

  module _ (laws : Laws r) (event : Event) where
    abbrev pub key : Key
    key = Key.dedupe_event event.event_id

    -- Redis once the event is marked as seen
    abbrev pub marked : World r.Store → World r.Store
    marked w = record w {
      redis = (r.exec w.clock w.redis (Command.set key Value.one dedupe_key_ttl_seconds)).0;
    }

    pub validate_new :
        (w : World r.Store)
        → IsTimely w.clock event
        → laws.live w.redis w.clock key ≡ none
        → validate r event w ≡ (marked w, ok tt)
    validate_new w timely free =
        validate_passed event w timely
        ∙ check_duplicate_done event w _
            (laws.set_nx_free w.clock w.redis key Value.one dedupe_key_ttl_seconds free)

    pub validate_known :
        (w : World r.Store) (v : Value W)
        → IsTimely w.clock event
        → laws.live w.redis w.clock key ≡ some v
        → validate r event w ≡ (w, raise Exn.duplicate_event)
    validate_known w v timely taken =
        validate_passed event w timely
        ∙ check_duplicate_nil event w _
            (laws.set_nx_taken w.clock w.redis key Value.one v dedupe_key_ttl_seconds taken)

    -- A timely event whose key is not in Redis is accepted once. If the entry of the key, as Redis
    -- gives it at the time of a second call, is what the first call left, whatever else changed in
    -- between, then the event is refused as a duplicate when it comes again within the hour, as long
    -- as it is still timely then.
    pub validate_once :
        (w w' : World r.Store)
        → IsTimely w.clock event
        → IsTimely w'.clock event
        → laws.live w.redis w.clock key ≡ none
        → laws.live w'.redis w'.clock key ≡ laws.live (validate r event w).0.redis w'.clock key
        → w.clock ≤ w'.clock
        → w'.clock < w.clock + dedupe_key_ttl_seconds * second
        → ((validate r event w).1 ≡ ok tt) × (validate r event w' ≡ (w', raise Exn.duplicate_event))
    validate_once w w' timely timely' free same after within =
        let new = validate_new w timely free in
        let kept = same ∙ ap (λ x. laws.live x.0.redis w'.clock key) new in
        let taken =
          laws.set_live w.clock w'.clock w.redis key Value.one dedupe_key_ttl_seconds after
            within in
        (ap (λ x. x.1) new, validate_known w' Value.one timely' (kept ∙ taken))
