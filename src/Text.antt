-- ===== src/Text.antt =====
-- Go strings as lists of bytes, and what the program uses of package `strings`.
mod Defs
pub mod Equality
pub mod Laws
pub mod Lines
mod Tests
unfoldable pub use Defs.*
