-- ===== src/Ingestion/Consumer/Attempts.antt =====
-- How often a record is handled, and when its offset is committed.
use nexusfeed.Prelude.{ℕ, suc, ◌+◌, ◌≤◌, ◌<◌, ◌≡◌}
use nexusfeed.World.{Exn, Outcome, Result, ok, raise}
use nexusfeed.Ingestion.Consumer.{Progress, handle_and_commit, process_loop}

module _ (handler committer : ℕ → Outcome) where
  abbrev tried : Progress → Progress × Outcome
  tried = handle_and_commit handler committer

  abbrev loop : ℕ → ℕ → ℕ → Progress → Progress × Result (Unit {0})
  loop = process_loop handler committer

  -- the last call of the handler ended so
  abbrev pub LastCall : Progress → Outcome → Type 0
  LastCall after outcome = (i : ℕ) × (after.handled ≡ i + 1) × (handler i ≡ outcome)

  -- a commit was asked for, and the last one ended so
  abbrev pub LastCommit : (before after : Progress) → Outcome → Type 0
  LastCommit before after outcome =
      (i : ℕ) × (after.commits ≡ i + 1) × (before.commits ≤ i) × (committer i ≡ outcome)

  -- How the work on a record ends, where the handler may be called `rounds` times from `before` on.
  pub data Ending (rounds : ℕ) (before after : Progress) (r : Result (Unit {0})) : Type 0 where
    -- handled and committed
    applied :
        r ≡ ok tt
        → LastCall after Outcome.returned
        → LastCommit before after Outcome.returned
        → Ending rounds before after r
    -- given up, and committed
    skipped :
        r ≡ ok tt
        → after.handled ≡ before.handled + rounds
        → LastCommit before after Outcome.returned
        → Ending rounds before after r
    handler_kafka :
        r ≡ raise Exn.kafka_error
        → LastCall after Outcome.kafka_failed
        → Ending rounds before after r
    commit_kafka :
        r ≡ raise Exn.kafka_error
        → LastCommit before after Outcome.kafka_failed
        → Ending rounds before after r
    -- given up, and the commit raised
    commit_failed :
        r ≡ raise Exn.library_error
        → after.handled ≡ before.handled + rounds
        → LastCommit before after Outcome.failed
        → Ending rounds before after r

  -- the handler is called at least once and at most `rounds` times
  pub record Processed (rounds : ℕ) (before after : Progress) (r : Result (Unit {0})) : Type 0 where
    pub called : before.handled < after.handled
    pub bounded : after.handled ≤ before.handled + rounds
    pub ended : Ending rounds before after r

  abbrev Ended : (limit max_retries attempt : ℕ) → Progress → Type 0
  Ended limit max_retries attempt p =
      Processed (suc limit) p (loop (suc limit) max_retries attempt p).0
        (loop (suc limit) max_retries attempt p).1
