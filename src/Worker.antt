-- ===== src/Worker.antt =====
-- cmd/worker: the service that runs scenarios taken from the queues.
pub mod Effects
pub mod Reporting
pub mod Handler
pub mod Protocol
pub mod Conforms
pub mod Stops
pub mod Books
pub mod Poison
pub mod Watcher
pub mod Startup
pub mod Pool
pub mod Wiring
pub mod Probes
mod Tests
