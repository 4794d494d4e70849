-- ===== src/Api/Status.antt =====
-- nexusfeed/api/routers/health.py and admin.py: what the endpoints report.
use nexusfeed.Prelude.{
  ℕ, Bool, true, false, Option, none, some, List, [], ◌∷◌, ◌++◌, String, get_default, string_eq,
  ◌==◌, if◌then◌else◌,
}
use nexusfeed.Prelude.Int.{pos}
use nexusfeed.Float.{Float}
use nexusfeed.Redis.{Redis}
use nexusfeed.World.{M, Outcome}
use nexusfeed.Types.{ExperimentMetrics}
use nexusfeed.Features.OnlineStore.{get_trending}
use nexusfeed.Retrieval.FaissIndex.{Faiss, FaissIndex, is_ready, size}
use nexusfeed.Experiments.Repository.{Tables, get_by_name}
use nexusfeed.Experiments.Metrics.{get_metrics}
use nexusfeed.Experiments.Significance.{Stats, SignificanceResult, evaluate_experiment}

pub record HealthStatus : Type 0 where
  pub status : String
  pub components : List (String × String)
  pub version : String

-- how the ping of a Redis client ends, if there is a client
abbrev pub redis_component : Option Outcome → List (String × String)
redis_component none = []
redis_component (some Outcome.returned) = ("redis", "ok") ∷ []
redis_component (some _) = ("redis", "down") ∷ []

-- `all(v in ("ok", "ready") for v in components.values())`
unfoldable pub all_up : List (String × String) → Bool
all_up [] = true
all_up ((name, v) ∷ components) =
    if v == "ok" then all_up components else if v == "ready" then all_up components else false

module _ {W : Type 0} (faiss : Faiss W) where
  abbrev pub index_ready : Option (FaissIndex faiss) → Bool
  index_ready none = false
  index_ready (some index) = is_ready faiss index

  abbrev pub index_size : Option (FaissIndex faiss) → ℕ
  index_size none = 0
  index_size (some index) = size faiss index

  -- `connected` tells whether the app has a database
  unfoldable pub health :
      (ping : Option Outcome) (index : Option (FaissIndex faiss)) (connected : Bool) → HealthStatus
  unfolding all_up
  health ping index connected =
      let components =
        ("api", "ok")
        ∷ (redis_component ping
            ++ ("faiss_index", if index_ready index then "ready" else "not_ready")
              ∷ ("postgres", if connected then "ok" else "unconfigured")
              ∷ []) in
      record {
        status = if all_up components then "ok" else "degraded";
        components = components;
        version = "0.1.0";
      }

  pub record SystemStatus : Type 0 where
    pub model_version : String
    pub faiss_index_ready : Bool
    pub faiss_index_size : ℕ

  abbrev pub version_or_unknown : Option String → String
  version_or_unknown none = "unknown"
  version_or_unknown (some version) = version

  unfoldable pub system_status :
      (model_version : Option String) (index : Option (FaissIndex faiss)) → SystemStatus
  system_status model_version index = record {
    model_version = version_or_unknown model_version;
    faiss_index_ready = index_ready index;
    faiss_index_size = index_size index;
  }

module _ {W : Type 0} ⦃f : Float W⦄ (r : Redis W) where
  -- the pairs of the answer under "trending"
  unfoldable pub trending : (limit : ℕ) → M r.Store (List (String × W))
  trending limit = get_trending r limit

pub record ExperimentReport (W : Type 0) : Type 0 where
  pub experiment : String
  pub control : ExperimentMetrics
  pub treatment : ExperimentMetrics
  pub significance : SignificanceResult W

abbrev pub no_metrics : (name variant : String) → ExperimentMetrics
no_metrics name variant = record {
  experiment_name = name;
  variant = variant;
  impressions = 0;
  clicks = 0;
  shares = 0;
  dwell_ms_total = pos 0;
  returns = 0;
}

module _ {W : Type 0} ⦃f : Float W⦄ (stats : Stats W) where
  -- `none` is the answer that the experiment is not found
  unfoldable pub experiment_results : (name : String) → Tables → Option (ExperimentReport W)
  unfolding get_by_name get_metrics get_default
  experiment_results name db = elim (get_by_name name db.experiments) [
    | none ↦ none
    | some experiment ↦
        let metrics = get_metrics experiment.id db.results in
        let control = get_default "control" (no_metrics name "control") metrics in
        let treatment = get_default "treatment" (no_metrics name "treatment") metrics in
        some (record {
          experiment = name;
          control = control;
          treatment = treatment;
          significance = evaluate_experiment stats control treatment (f.lit 1 1) 1;
        })
  ]
