-- ===== src/Consume.antt =====
-- kafka-consume.
pub mod Session
pub mod Group
pub mod Consumer
pub mod Assign
pub mod Task
pub mod Rebalance
pub mod GroupConsumer
pub mod Classic
pub mod ClassicConsumer
