-- ===== src/Lib.antt =====
-- nexusfeed: a feed recommendation service. Clients post behavioural events, which are validated,
-- put on Kafka topics and recorded; the feed endpoint retrieves candidates, ranks and re-ranks them,
-- adds exploration and experiment assignments, and serves them.
--
-- The files and the code they model (paths from the root of the repository):
--   Types, World       nexusfeed/types.py and nexusfeed/exceptions.py; the state that the request
--                      handlers act on, and code that raises, as state passing.
--   Redis              the commands of the Redis server, with its documented behaviour as laws;
--                      Redis/Client is what the program sees of redis-py.
--   Ingestion          nexusfeed/ingestion: Validator (event_validator.py), Producer
--                      (kafka_producer.py), Router (event_router.py) and Consumer
--                      (kafka_consumer.py).
--   Api                nexusfeed/api/routers: Events (events.py) composes the validator, the router
--                      and the audit write; Feed (feed.py) composes all that follows; Experiments
--                      (experiments.py), Feedback (feedback.py), Similar (similar.py), Explain
--                      (explain.py) and Status (health.py, admin.py); Startup is the lifespan of
--                      nexusfeed/api/main.py, and Middleware is nexusfeed/api/middleware, stacked as
--                      there.
--   Features           nexusfeed/features: OnlineStore, with the texts of its embeddings in
--                      Packing, OfflineStore, UserFeatures, ItemFeatures, Pipeline
--                      (feature_pipeline.py) and Registry (feature_registry.py).
--   Retrieval          nexusfeed/retrieval: FaissIndex, CandidateGenerator and IndexBuilder.
--   Ranking            nexusfeed/ranking: Ranker, Reranker and Diversity (MMR, category cap).
--   Experiments        nexusfeed/experiments: Bandit, Bucketing, Manager (experiment_manager.py) and
--                      Metrics (metrics_tracker.py), over the tables of Repository
--                      (nexusfeed/db/repositories/experiment_repo.py); Significance is
--                      significance.py.
--   Repositories       nexusfeed/db/repositories: Users, Items and the queries of Interactions.
--   Explanations       nexusfeed/explainability/shap_explainer.py.
--   Models             nexusfeed/models: Registry (model_registry.py) over the laws of Mlflow, Trainer
--                      (train.py, online_learning.py) and Evaluate (evaluate.py).
--   Training           training: DataLoader (data_loader.py) and NegativeSampling
--                      (negative_sampling.py).
--   Baselines          nexusfeed/baselines: Popularity, Collaborative and, with the simulation of
--                      scripts/run_benchmark.py, Benchmark.
--   Float, Sorting     floating-point scores as an interface; Python's sort and max by a key.
--   Prelude            tests, lists, dictionaries and integers that the modules share.
--   Tests              the theorems at concrete inputs.
--
-- Operations have the names of the methods they model. A handler is a function from the state to the
-- state and a result; what it changed before it raised stays changed. Times are microseconds. Redis,
-- the Kafka broker, the database, MLflow, faiss, numpy, scipy, torch, shap, struct, base64, SHA-256
-- and random numbers are arguments: an interface with laws, or the outcome of the n-th call. A call of
-- the broker that raises may have stored its message: the outcome says whether it did.
--
-- Loops that end by a test run on fuel: `send` and `_process_with_retry` on max_retries + 1 rounds,
-- since every round but the last adds one to the attempts; `mmr_rerank` on as many rounds as
-- candidates, since every round removes one; the sampling of negatives on any number, and the theorem
-- on it says how many are enough, given how long the draws may repeat one item. The theorems on the
-- others show that the fuel is never used up.
--
-- Not modelled: the layers of the networks, the jobs of training/ that start them, and the scripts
-- that generate data and seed the stores. Metrics, logging, tracing and connections are I/O.
pub mod Api
pub mod Experiments
pub mod Float
pub mod Ingestion
pub mod Prelude
pub mod Ranking
pub mod Redis
pub mod Sorting
pub mod Types
pub mod World
pub mod Retrieval
pub mod Features
pub mod Models
pub mod Training
pub mod Repositories
pub mod Baselines
pub mod Explanations
pub mod Tests
