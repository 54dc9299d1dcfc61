-- ===== src/ReactNative.antt =====
-- react-native/src: the client for apps.
pub mod Config
pub mod Client
pub mod Capture
pub mod Steps
pub mod Refines
pub mod Laws
pub mod Delivery
mod Tests
