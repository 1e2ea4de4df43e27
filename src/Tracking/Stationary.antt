-- ===== src/Tracking/Stationary.antt =====
-- The zones that are made where devices stay: crates/icloud-tracking/src/stationary.rs.
pub mod Defs
pub mod Observe
pub mod Consistent
