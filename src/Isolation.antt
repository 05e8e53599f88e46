-- ===== src/Isolation.antt =====
-- Which objects the operations of internal/s3fs may change.
pub mod Reads
pub mod Calls
pub mod Loops
pub mod Changes
