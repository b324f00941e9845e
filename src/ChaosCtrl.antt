-- ===== src/ChaosCtrl.antt =====
-- The command-line tool cmd/chaos-ctrl.
pub mod Arguments
pub mod Commands
pub mod Sides
pub mod Parsing
pub mod Kubeconfig
mod Tests
