-- ===== src/Queue.antt =====
-- core/src/queue.ts: the delivery queue. Each call, and each answer of a request, is a step from one
-- state to the next; the parts stand in the modules below.
pub mod State
pub mod Bound
pub mod Drain
pub mod Calls
pub mod Balance
pub mod Sound
pub mod Sent
pub mod Retry
pub mod Delivery
pub mod Snapshot
pub mod Shutdown
pub mod Paused
pub mod Asks
pub mod Flight
pub mod Credit
mod Tests
