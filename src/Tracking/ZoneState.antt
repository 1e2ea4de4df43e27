-- ===== src/Tracking/ZoneState.antt =====
-- Zone transitions and occupancy: crates/icloud-tracking/src/zone_state.rs.
pub mod Defs
pub mod Transitions
pub mod Occupancy
