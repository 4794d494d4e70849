-- ===== src/Retrieval.antt =====
-- nexusfeed/retrieval: the candidates of a feed.
pub mod FaissIndex
pub mod CandidateGenerator
pub mod IndexBuilder
