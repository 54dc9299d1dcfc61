-- ===== src/Node.antt =====
-- node/src: the client for servers.
pub mod Middleware
pub mod Context
pub mod Config
pub mod Client
pub mod Payloads
pub mod Capture
pub mod Users
pub mod Request
pub mod Steps
pub mod Lasting
pub mod Refines
pub mod Delivery
mod Tests
