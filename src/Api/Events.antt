-- ===== src/Api/Events.antt =====
-- nexusfeed/api/routers/events.py: `ingest_event`, with the audit write of
-- nexusfeed/db/repositories/interaction_repo.py. The database is an argument: how the n-th flush or
-- commit ends. The Prometheus counters are left out.
pub mod Delivery
use nexusfeed.Prelude.{ℕ, ◌+◌, Option, none, some, String, List, ◌∷◌}
use nexusfeed.Prelude.Int.{ℤ}
use nexusfeed.Types.{Uuid, Event, value}
use nexusfeed.Redis.{Redis}
use nexusfeed.World.{
  World, Interaction, M, Exn, Outcome, Sending, Result, ok, raise, pure, fail, ◌>>=◌, ◌>>◌,
}
use nexusfeed.Ingestion.Validator.{validate}
use nexusfeed.Ingestion.Router.{route}

-- `EventIngestResponse.status`
abbrev pub accepted : String
accepted = "accepted"

abbrev pub duplicate_ignored : String
duplicate_ignored = "duplicate_ignored"

module _ {S : Type 0} (database : ℕ → Outcome) where
  -- a flush or a commit of the session
  unfoldable pub write : M S (Unit {0})
  write w =
      let w' = record w { writes = w.writes + 1 } in
      elim (database w.writes) [
        | Outcome.returned ↦ (w', ok tt)
        | _ ↦ (w', raise Exn.database_error)
      ]

  -- `InteractionRepository.record`: the row is flushed, and counts once it is committed
  unfoldable pub record_interaction : Interaction → M S Interaction
  record_interaction row = do write; pure row

  unfoldable pub commit : Interaction → M S (Unit {0})
  commit row = do write; (λ w. (record w { interactions = row ∷ w.interactions }, ok tt))

abbrev pub audit_row : Event → Interaction
audit_row event = record {
  user_id = event.user_id;
  item_id = event.item_id;
  event_type = value event.event_type;
  dwell_ms = event.dwell_ms;
  session_id = event.session_id;
}

module _ {W : Type 0} (r : Redis W) (broker : ℕ → Sending) (database : ℕ → Outcome) where
  -- what follows the `try`
  unfoldable pub deliver : Event → M r.Store String
  deliver event = do
    route broker event
    row ← record_interaction database (audit_row event)
    commit database row
    pure accepted

  -- the `except` clauses, by the exception that `validate` raised
  abbrev pub on_rejected : Exn → M r.Store String
  on_rejected Exn.duplicate_event = pure duplicate_ignored
  on_rejected e = fail e

  unfoldable pub ingest_event : Event → M r.Store String
  ingest_event event w =
      let (w', checked) = validate r event w in
      elim checked [ ok _ ↦ deliver event w' | raise e ↦ on_rejected e w' ]
