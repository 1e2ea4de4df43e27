-- ===== src/Runtime/Refresh.antt =====
-- `TrackingRuntime::apply_refresh` of src/runtime.rs, in its parts.
pub mod Quality
pub mod Sighting
pub mod Route
pub mod Interval
pub mod Tracks
pub mod Device
pub mod Apply
