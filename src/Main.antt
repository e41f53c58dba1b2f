-- ===== src/Main.antt =====
-- cmd/autoscaler/main.go: the HTTP server of the process, and its small decisions.
mod Defs
pub mod Lifecycle
pub mod Ending
pub mod Access
unfoldable pub use Defs.*
