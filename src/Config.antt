-- ===== src/Config.antt =====
-- The configuration of the application: src/config.rs, and its use in src/main.rs.
pub mod Defs
pub mod Validate
pub mod Runtime
pub mod Accepted
pub mod Unique
