-- ===== src/Ingestion.antt =====
-- nexusfeed/ingestion: validation, the Kafka producer and consumer, and routing.
pub mod Producer
pub mod Validator
pub mod Router
pub mod Consumer
