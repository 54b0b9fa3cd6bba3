-- ===== src/Produce.antt =====
-- kafka-produce.
pub mod Idempotence
pub mod Partition
pub mod Accumulator
pub mod Transactions
