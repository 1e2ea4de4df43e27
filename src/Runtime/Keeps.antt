-- ===== src/Runtime/Keeps.antt =====
-- What the actions of src/runtime.rs keep: a predicate on the tracking state that its basic changes
-- keep is kept by every operation, whether it succeeds or fails.
pub mod Rules
pub mod Commands
pub mod Routes
pub mod Devices
pub mod Nearby
pub mod Operations
