-- ===== src/Conn.antt =====
-- kafka-conn: the codes, the keys and the versions that a connection speaks.
pub mod ErrorCode
pub mod ApiKey
pub mod Sanitize
pub mod Errors
pub mod Versions
pub mod Gate
