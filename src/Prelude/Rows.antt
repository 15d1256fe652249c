-- ===== src/Prelude/Rows.antt =====
-- Tables of a database: the statements, and their laws.
mod Defs
mod Laws
pub mod Pairs
unfoldable pub use Defs.*
pub use Laws.*
