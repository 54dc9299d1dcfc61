-- ===== src/Browser.antt =====
-- browser/src: what the browser's client keeps besides the delivery queue.
pub mod Unsent
pub mod WebQueue
pub mod Unload
