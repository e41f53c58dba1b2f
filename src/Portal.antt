-- ===== src/Portal.antt =====
-- internal/portal/portal.go: the token check, the endpoints that act, and the state that is shown.
mod Collect
mod Defs
pub mod Report
pub mod Whole
pub mod Access
pub mod Stopping
unfoldable pub use Collect.*
unfoldable pub use Defs.*
