-- ===== src/Features.antt =====
-- nexusfeed/features: what the online store keeps of users and items.
pub mod OnlineStore
pub mod OfflineStore
pub mod UserFeatures
pub mod ItemFeatures
pub mod Pipeline
pub mod Registry
pub mod Packing
