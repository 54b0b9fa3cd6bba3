-- ===== src/Meta.antt =====
-- kafka-meta: routing, the metadata snapshot, and retries.
pub mod Routing
pub mod Retry
pub mod Scope
pub mod Snapshot
mod Tests
