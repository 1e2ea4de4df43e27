-- ===== src/Tracking/Nearby.antt =====
-- Groups of devices that are near each other: crates/icloud-tracking/src/nearby.rs.
pub mod Defs
pub mod Keys
pub mod Total
