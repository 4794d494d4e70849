-- ===== src/Api.antt =====
-- nexusfeed/api/routers: the request handlers.
pub mod Events
pub mod Feed
pub mod Experiments
pub mod Feedback
pub mod Middleware
pub mod Similar
pub mod Status
pub mod Explain
pub mod Startup
