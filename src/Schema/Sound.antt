-- ===== src/Schema/Sound.antt =====
-- The checker accepts exactly the values that conform to the schema.
mod Types
mod Plain
mod Parts
mod Whole
pub use Whole.*
