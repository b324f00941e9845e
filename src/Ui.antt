-- ===== src/Ui.antt =====
-- cmd/ui: the web pages and the client by which they call the API.
pub mod Views
pub mod Forms
pub mod Pages
pub mod Scenarios
pub mod Chaos
pub mod Client
pub mod Streams
pub mod LogStream
mod Tests
