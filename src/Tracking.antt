-- ===== src/Tracking.antt =====
-- The crate icloud-tracking: crates/icloud-tracking/src.
pub mod Error
pub mod Interval
pub mod Direction
pub mod Zone
pub mod ZoneState
pub mod Quality
pub mod External
pub mod Stationary
pub mod Nearby
pub mod State
