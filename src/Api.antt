-- ===== src/Api.antt =====
-- cmd/api: the REST API.
pub mod Http
pub mod Scenarios
pub mod Experiments
pub mod Status
pub mod Startup
pub mod Wiring
pub mod Logging
mod Tests
