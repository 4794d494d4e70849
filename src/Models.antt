-- ===== src/Models.antt =====
-- nexusfeed/models: the model registry.
pub mod Mlflow
pub mod Registry
pub mod Trainer
pub mod Evaluate
