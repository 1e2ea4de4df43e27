-- ===== src/Tracking/Interval.antt =====
-- The polling intervals: crates/icloud-tracking/src/interval.rs.
pub mod Defs
pub mod Determine
pub mod Limits
pub mod Retry
pub mod Distance
pub mod Total
