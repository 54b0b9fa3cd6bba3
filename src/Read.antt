-- ===== src/Read.antt =====
-- kafka-read.
pub mod Record
pub mod Header
pub mod Decompress
pub mod Batch
pub mod Scan
