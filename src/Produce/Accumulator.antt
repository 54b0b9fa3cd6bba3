-- ===== src/Produce/Accumulator.antt =====
-- kafka-produce/src/accumulator.rs: batching many records into few requests.
pub mod Types
pub mod Buffer
pub mod Actor
pub mod Upkeep
pub mod Order
pub mod Bounds
pub mod Expiry
pub mod Answers
pub mod Dispatch
pub mod Subsequence
pub mod Life
pub mod History
pub mod Work
pub mod Whole
pub mod Flush
pub mod Stamp
pub mod Late
mod Tests
