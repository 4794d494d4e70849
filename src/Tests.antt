-- ===== src/Tests.antt =====
-- The theorems at concrete inputs, with a Redis and a faiss that meet their laws.
pub mod Packing
pub mod Store
pub mod Data
mod Ingestion
mod Features
mod Ranking
mod Feed
mod Registry
mod Training
mod Api
mod Repositories
