-- ===== src/Config.antt =====
-- internal/config/config.go: the configuration, its validation and the lookup of a repository.
mod Defs
pub mod Valid
pub mod Lookup
unfoldable pub use Defs.*
