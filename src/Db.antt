-- ===== src/Db.antt =====
-- The package internal/db: clients of Postgres, Redis and MongoDB.
pub mod Connect
pub mod Schema
pub mod Clients
mod Tests
