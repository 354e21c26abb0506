-- ===== src/Bytes.antt =====
-- Byte strings and `struct`; the definitions and their laws.
mod Defs
mod Laws
pub mod Utf8
unfoldable pub use Defs.*
pub use Laws.*
