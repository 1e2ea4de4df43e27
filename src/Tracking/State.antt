-- ===== src/Tracking/State.antt =====
-- The durable tracking state: crates/icloud-tracking/src/state.rs.
pub mod Defs
pub mod Device
pub mod Snapshot
pub mod Locations
pub mod Grace
pub mod Battery
pub mod Events
pub mod Migration
