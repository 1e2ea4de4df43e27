-- ===== src/Tracking/Direction.antt =====
-- The direction of travel: crates/icloud-tracking/src/direction.rs.
pub mod Defs
pub mod History
pub mod Override
