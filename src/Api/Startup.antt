-- ===== src/Api/Startup.antt =====
-- The start of the application, in the `lifespan` of nexusfeed/api/main.py. How the calls of the
-- libraries end is given: the registry's answer, the files of the index and of the model, and the
-- explainer that is built for the model. The closing of the connections is left out.
use Prim.Native.String
use nexusfeed.Prelude.{ℕ, Bool, true, false, Option, none, some, List, [], String}
use nexusfeed.World.{Outcome, Result, ok, raise}
use nexusfeed.Retrieval.FaissIndex.{Faiss, FaissIndex, load}

-- `KafkaEventProducer.start`: whether the producer is set afterwards, and how the call ends. The
-- producer is built and stored before the broker is asked.
unfoldable pub start : (built started : Outcome) → Bool × Outcome
start Outcome.returned started = (true, started)
start built started = (false, built)

module _ {W : Type 0} (faiss : Faiss W) (Model Explainer : Type 0) where
  -- `app.state`
  pub record AppState : Type 0 where
    pub model_version : String
    pub kafka_started : Bool
    pub faiss_index : FaissIndex faiss
    pub ranker : Option Model
    pub shap_explainer : Option Explainer

  -- the settings that are read, and how the calls end
  pub record Environment : Type 0 where
    pub embedding_dim : ℕ
    pub fallback_model_version : String
    pub ranking_model_name : String
    -- the version in production, as a text
    pub production_version : Result (Option String)
    pub producer_built : Outcome
    pub producer_started : Outcome
    pub index_file : Result (faiss.Index × Option (List String))
    pub model_file : Result Model
    pub explainer_of : Model → Result Explainer

  abbrev pub version_of : Environment → Result (Option String) → String
  version_of env (ok (some String.[])) = env.fallback_model_version
  version_of env (ok (some (String.◌∷◌ c v))) =
      String.◌++◌ env.ranking_model_name (String.◌++◌ "-v" (String.◌∷◌ c v))
  version_of env (ok none) = env.fallback_model_version
  version_of env (raise e) = env.fallback_model_version

  -- `FaissIndex(dim=settings.embedding_dim)`
  abbrev pub new_index : (dim : ℕ) → FaissIndex faiss
  new_index dim = record {
    dim = dim;
    m = 32;
    ef_construction = 200;
    ef_search = 64;
    index = none;
    id_map = [];
  }

  abbrev pub index_from :
      FaissIndex faiss → Result (faiss.Index × Option (List String)) → FaissIndex faiss
  index_from new (ok (index, ids_file)) = load faiss new index ids_file
  index_from new (raise e) = new

  abbrev pub or_none {ℓ} : {A : Type ℓ} → Result A → Option A
  or_none (ok a) = some a
  or_none (raise e) = none

  -- the ranker is set before the explainer is built
  abbrev pub ranking_from : Environment → Result Model → Option Model × Option Explainer
  ranking_from env (ok model) = (some model, or_none (env.explainer_of model))
  ranking_from env (raise e) = (none, none)

  unfoldable pub lifespan : Environment → AppState
  unfolding start load
  lifespan env =
      let (ranker, shap_explainer) = ranking_from env env.model_file in
      record {
        model_version = version_of env env.production_version;
        kafka_started = (start env.producer_built env.producer_started).0;
        faiss_index = index_from (new_index env.embedding_dim) env.index_file;
        ranker = ranker;
        shap_explainer = shap_explainer;
      }
