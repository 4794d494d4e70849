-- ===== src/Ingestion/Consumer.antt =====
-- nexusfeed/ingestion/kafka_consumer.py: `KafkaEventConsumer._process_with_retry` for one record.
-- The handler and the commit of aiokafka are arguments: how the n-th call of each ends. Logging is
-- left out.
pub mod Attempts
use nexusfeed.Prelude.{ℕ, zero, suc, ◌+◌, if◌then◌else◌, ltb}
use nexusfeed.World.{Exn, Outcome, Result, ok, raise}

-- how often the handler was called, and how often a commit was asked for
pub record Progress : Type 0 where
  pub handled : ℕ
  pub commits : ℕ

module _ (handler committer : ℕ → Outcome) where
  -- `self._consumer.commit()`
  unfoldable pub commit_offset : Progress → Progress × Outcome
  commit_offset p = (record p { commits = p.commits + 1 }, committer p.commits)

  -- the body of the `try`
  unfoldable pub handle_and_commit : Progress → Progress × Outcome
  unfolding commit_offset
  handle_and_commit p =
      let called = record p { handled = p.handled + 1 } in
      elim (handler p.handled) [ Outcome.returned ↦ commit_offset called | other ↦ (called, other) ]

  -- the exception of a call, if it raised
  abbrev pub result_of : Outcome → Result (Unit {0})
  result_of Outcome.returned = ok tt
  result_of Outcome.kafka_failed = raise Exn.kafka_error
  result_of Outcome.failed = raise Exn.library_error

  -- giving up commits all the same
  abbrev pub give_up : Progress → Progress × Result (Unit {0})
  give_up p = let (p', outcome) = commit_offset p in (p', result_of outcome)

  -- `while True`, on fuel
  unfoldable pub process_loop :
      (fuel max_retries attempt : ℕ) → Progress → Progress × Result (Unit {0})
  unfolding handle_and_commit
  process_loop zero max_retries attempt p = (p, raise Exn.out_of_fuel)
  process_loop (suc fuel) max_retries attempt p =
      let (p', outcome) = handle_and_commit p in
      elim outcome [
        | Outcome.returned ↦ (p', ok tt)
        | Outcome.kafka_failed ↦ (p', raise Exn.kafka_error)
        | Outcome.failed ↦
            let again = process_loop fuel max_retries (attempt + 1) p' in
            if ltb max_retries (attempt + 1) then give_up p' else again
      ]

  -- every round but the last adds one to `attempt`, so `max_retries + 1` rounds are enough
  unfoldable pub process_with_retry : (max_retries : ℕ) → Progress → Progress × Result (Unit {0})
  unfolding process_loop
  process_with_retry max_retries p = process_loop (max_retries + 1) max_retries 0 p
