-- ===== src/Messaging.antt =====
-- internal/messaging: the RabbitMQ producer and consumer.
pub mod Carrier
pub mod Broker
pub mod Topology
pub mod Connection
pub mod Consume
pub mod Monitor
mod Tests
