-- ===== src/Workload.antt =====
-- The package internal/workload: requests and their validation, and the load generators.
pub mod Types
pub mod Validation
pub mod Params
pub mod Mixed
pub mod Split
pub mod Clock
pub mod Generators
mod Tests
