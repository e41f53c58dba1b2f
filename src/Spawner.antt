-- ===== src/Spawner.antt =====
-- internal/spawner/spawner.go: the admission of a runner, and its start.
mod Commands
mod Counters
mod Defs
mod Reports
pub mod Progress
pub mod Termination
pub mod Spawned
pub mod Held
pub mod Disk
pub mod Pausing
pub mod Owners
pub mod Paths
pub mod Finishing
pub mod Liveness
pub mod Calls
pub mod Secrecy
pub mod Runners
pub mod Files
pub mod Invariant
pub mod Mutex
pub mod Move
pub mod Safety
pub mod Steps
pub mod Cap
pub mod Docker
pub mod Interleaving
pub mod Goroutine
pub mod Solo
pub mod Runs
pub mod Accounts
unfoldable pub use Commands.*
unfoldable pub use Counters.*
unfoldable pub use Defs.*
unfoldable pub use Reports.*
