-- ===== src/Api/Experiments.antt =====
-- nexusfeed/api/routers/experiments.py: the three handlers, on the tables of the database.
use nexusfeed.Prelude.{List, String}
use nexusfeed.Prelude.Int.{ℤ}
use nexusfeed.Types.{Uuid, Time, ExperimentAssignment}
use nexusfeed.Redis.{Redis}
use nexusfeed.World.{M, Result, ok, raise, pure, ◌>>=◌, catch}
use nexusfeed.Api.Feed.{default_experiment_name}
use nexusfeed.Experiments.Bucketing.{Digest}
use nexusfeed.Experiments.Repository.{Experiment, Tables, create}
use nexusfeed.Experiments.Manager.{get_assignment, stop_experiment}

-- the assignment, or the answer with the variant "control" and the note "no active experiment"
pub data AssignmentAnswer : Type 0 where
  assigned : ExperimentAssignment → AssignmentAnswer
  no_active_experiment : Uuid → AssignmentAnswer

unfoldable pub get_experiment_assignment :
    {W : Type 0} (r : Redis W) (sha256 : Digest) (experiments : List Experiment)
    → Uuid
    → M r.Store AssignmentAnswer
get_experiment_assignment r sha256 experiments user_id =
    catch
      (do
        a ← get_assignment r sha256 experiments user_id default_experiment_name
        pure (AssignmentAnswer.assigned a))
      (λ e. pure (AssignmentAnswer.no_active_experiment user_id))

-- the id, name and status of the answer
unfoldable pub create_experiment :
    (id : Uuid) (name : String) (control_range treatment_range : ℤ × ℤ)
    → Tables
    → Tables × (Uuid × String × String)
unfolding create
create_experiment id name control_range treatment_range db =
    let (db', experiment) = create id name control_range treatment_range db in
    (db', (experiment.id, experiment.name, experiment.status))

-- the name and status of the answer
unfoldable pub stop_experiment_by_name :
    String → (now : Time) → Tables → Tables × Result (String × String)
unfolding stop_experiment
stop_experiment_by_name name now db =
    let (db', result) = stop_experiment name now db in
    (db', elim result [ ok _ ↦ ok (name, "stopped") | raise e ↦ raise e ])
