-- ===== src/Tracking/Quality.antt =====
-- The quality of locations: crates/icloud-tracking/src/quality.rs.
pub mod Defs
pub mod Threshold
