-- ===== src/Models/Registry.antt =====
-- nexusfeed/models/model_registry.py: `ModelRegistry`, over the client of MLflow. `show` is `str` of
-- a float. The source's time of creation of the returned record is left out.
pub mod Stages
pub mod Steps
pub mod Rollback
pub mod Again
use Prim.Native.String
use nexusfeed.Prelude.{
  ℕ, Bool, true, false, Option, none, some, List, [], ◌∷◌, String, filter, ltb, if◌then◌else◌, ◌==◌,
}
use nexusfeed.Models.Mlflow.{Mlflow, Version, Stage, stage_eq, Call, pure, ignoring, ◌>>=◌, ◌>>◌}

pub record ModelVersion (W : Type 0) : Type 0 where
  pub model_name : String
  pub version : ℕ
  pub artifact_uri : String
  pub metrics : List (String × W)
  pub feature_version : String
  pub status : String

abbrev pub is_in : Stage → Version → Bool
is_in stage v = v.current_stage == stage

-- `max(archived, key=lambda v: int(v.version))`
unfoldable pub newest : Version → List Version → Version
newest best [] = best
newest best (v ∷ vs) = newest (if ltb best.version v.version then v else best) vs

unfoldable pub newest_of : List Version → Option Version
unfolding newest
newest_of [] = none
newest_of (v ∷ vs) = some (newest v vs)

abbrev pub first_version : List Version → Option ℕ
first_version [] = none
first_version (v ∷ vs) = some v.version

module _ (mlflow : Mlflow) {W : Type 0} (show : W → String) where
  unfoldable pub set_metric_tags :
      String → (version : ℕ) → List (String × W) → Call mlflow.Server (Unit {0})
  set_metric_tags model_name version [] = pure tt
  set_metric_tags model_name version ((key, value) ∷ metrics) =
      mlflow.set_model_version_tag model_name version (String.◌++◌ "metric." key) (show value)
      >> set_metric_tags model_name version metrics

  unfoldable pub register :
      (model_name artifact_uri : String) (metrics : List (String × W)) (feature_version : String)
      → Call mlflow.Server (ModelVersion W)
  register model_name artifact_uri metrics feature_version = do
    ignoring (mlflow.create_registered_model model_name)
    version ← mlflow.create_model_version model_name artifact_uri
    set_metric_tags model_name version metrics
    mlflow.set_model_version_tag model_name version "feature_version" feature_version
    mlflow.transition_model_version_stage model_name version Stage.staging false
    pure (record {
      model_name = model_name;
      version = version;
      artifact_uri = artifact_uri;
      metrics = metrics;
      feature_version = feature_version;
      status = "staging";
    })

  unfoldable pub promote_to_canary :
      String → (version : ℕ) → (traffic_pct : W) → Call mlflow.Server (Unit {0})
  promote_to_canary model_name version traffic_pct =
      mlflow.set_model_version_tag model_name version "canary_traffic_pct" (show traffic_pct)
      >> mlflow.set_model_version_tag model_name version "stage_detail" "canary"

module _ (mlflow : Mlflow) where
  unfoldable pub promote_to_production : String → ℕ → Call mlflow.Server (Unit {0})
  promote_to_production model_name version =
      mlflow.transition_model_version_stage model_name version Stage.production true

  -- what `rollback` does with `previous`, or without one
  unfoldable pub restore : String → Option Version → Call mlflow.Server (Option ℕ)
  restore model_name none = pure none
  restore model_name (some previous) =
      mlflow.transition_model_version_stage model_name previous.version Stage.production true
      >> pure (some previous.version)

  unfoldable pub rollback : String → Call mlflow.Server (Option ℕ)
  rollback model_name = mlflow.search_model_versions model_name >>= λ versions.
      restore model_name (newest_of (filter (is_in Stage.archived) versions))

  unfoldable pub get_production_version : String → Call mlflow.Server (Option ℕ)
  get_production_version model_name =
      mlflow.get_latest_versions model_name Stage.production >>= λ versions.
      pure (first_version versions)
