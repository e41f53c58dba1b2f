-- ===== src/Cleanup.antt =====
-- internal/cleanup/cleanup.go: ghost runners at GitHub, and orphaned containers on the host.
mod Defs
mod Local
mod Tick
pub mod Names
pub mod Listing
pub mod Repo
pub mod Counts
pub mod Reaping
pub mod Ticks
pub mod Order
pub mod Sweep
unfoldable pub use Defs.*
unfoldable pub use Local.*
unfoldable pub use Tick.*
