-- ===== src/Queue.antt =====
-- internal/queue: ordering, configuration, and the live queue.
pub mod Heap
pub mod Message
pub mod Order
pub mod Payload
pub mod Live
pub mod Ops
pub mod Maintain
pub mod Polling
pub mod Invariant
pub mod Delivery
pub mod Leases
pub mod Waking
pub mod Dedup
pub mod Kept
pub mod Interleaving
mod Tests
