-- ===== src/Consume/Classic.antt =====
-- kafka-consume/src/classic.rs: a member of a classic group, `ClassicMembership`, whose messages are in Wire.
pub mod Wire
pub mod RoundTrip
pub mod Messages
pub mod Member
mod Tests
