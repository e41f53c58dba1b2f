-- ===== src/Process.antt =====
-- cmd/autoscaler/main.go: the parts of the process together.
pub mod Keeps
pub mod Reconciling
pub mod Cleaning
pub mod Reaping
pub mod Relaying
pub mod Serving
pub mod Actions
pub mod Ledger
pub mod Files
pub mod Surface
