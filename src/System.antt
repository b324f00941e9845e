-- ===== src/System.antt =====
-- The services together: what one of them hands to another through the broker.
pub mod Delivery
pub mod Routes
pub mod Services
pub mod Table
mod Tests
