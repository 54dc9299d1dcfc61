-- ===== src/Normalize.antt =====
-- core/src/normalize.ts: captured values become plain JSON data, bounded and without credentials.
pub mod Scrub
pub mod Keys
pub mod Walk
pub mod Clean
pub mod Laws
mod Tests
