-- ===== src/Reconciler.antt =====
-- internal/reconciler/reconciler.go: the jobs that wait at GitHub, and the spawns that they get.
mod Defs
pub mod Counting
pub mod Budget
pub mod Filter
unfoldable pub use Defs.*
