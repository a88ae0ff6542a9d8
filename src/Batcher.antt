-- ===== src/Batcher.antt =====
-- internal/batcher.
pub mod Types
pub mod ReqMap
pub mod Flush
pub mod Answers
pub mod Waiters
pub mod FanOut
pub mod Window
pub mod Queue
pub mod Collect
pub mod Writes
pub mod System
pub mod Counters
pub mod Delivery
