-- ===== src/Chaos.antt =====
-- internal/chaos: the client of the Chaos Mesh resources of Kubernetes.
pub mod Types
pub mod Client
pub mod Phases
mod Tests
