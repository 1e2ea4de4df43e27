-- ===== src/Tracking/External.antt =====
-- External locations: crates/icloud-tracking/src/external.rs.
pub mod Defs
pub mod Arbitration
pub mod Health
