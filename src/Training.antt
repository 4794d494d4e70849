-- ===== src/Training.antt =====
-- training: the loader of training data and the sampling of negatives.
pub mod NegativeSampling
pub mod DataLoader
