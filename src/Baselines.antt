-- ===== src/Baselines.antt =====
-- nexusfeed/baselines and scripts/run_benchmark.py: the rankers that the feed is compared with.
pub mod Popularity
pub mod Collaborative
pub mod Benchmark
