-- ===== src/Runtime.antt =====
-- The runtime that schedules devices: src/runtime.rs.
pub mod Defs
pub mod Action
pub mod Config
pub mod Accounts
pub mod Commands
pub mod Nearby
pub mod Refresh
pub mod External
pub mod Tick
pub mod Keeps
pub mod Reach
pub mod Sound
pub mod Known
pub mod Commanding
pub mod Failing
pub mod Restart
pub mod Visits
pub mod Ticking
pub mod Stopping
pub mod Contexts
pub mod Ingesting
pub mod Requesting
pub mod Locating
