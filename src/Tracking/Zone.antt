-- ===== src/Tracking/Zone.antt =====
-- Zones: crates/icloud-tracking/src/zone.rs.
pub mod Defs
pub mod Validation
pub mod Selection
