-- ===== src/Float.antt =====
-- The C type `float`, as an interface: its operations are a parameter of every definition that
-- computes with floats, and what a theorem needs of IEEE single precision is a hypothesis of it.
mod Defs
pub mod Fixed
pub use Defs.*
