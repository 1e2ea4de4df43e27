-- ===== src/FindMy.antt =====
-- crates/icloud-findmy, and what src/main.rs does with its devices.
pub mod Device
pub mod Select
pub mod Selected
