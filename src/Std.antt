-- ===== src/Std.antt =====
-- What the program uses of Rust's standard library and of the crate `chrono`.
pub mod Result
pub mod Words
pub mod Float
pub mod FloatLaws
pub mod Chrono
pub mod TreeMap
pub mod Vec
pub mod Filter
pub mod Order
pub mod Sort
pub mod Display
pub mod Json
pub mod Text
pub mod Yields
