-- ===== src/Examples.antt =====
-- Concrete models of the parameters, tests of the definitions, and the theorems at inputs that meet
-- their hypotheses.
pub mod Fixed
pub mod FixedLaws
pub mod Clock
pub mod Intervals
pub mod Locations
pub mod Zones
pub mod Stationary
pub mod Migration
pub mod Battery
pub mod Nearby
pub mod World
pub mod Runtime
pub mod Config
pub mod Devices
