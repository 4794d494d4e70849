-- ===== src/Ranking.antt =====
-- nexusfeed/ranking: scoring, diversity and the final ordering of a feed.
pub mod Diversity
pub mod Ranker
pub mod Reranker
