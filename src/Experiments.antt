-- ===== src/Experiments.antt =====
-- nexusfeed/experiments and the tables it keeps: bandit exploration, A/B assignment, and metrics.
pub mod Bandit
pub mod Bucketing
pub mod Repository
pub mod Manager
pub mod Metrics
pub mod Significance
