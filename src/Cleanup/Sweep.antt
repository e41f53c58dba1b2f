-- ===== src/Cleanup/Sweep.antt =====
-- internal/cleanup/cleanup.go: the goroutines of a tick, one request at a time.
pub mod Goroutine
pub mod Alone
pub mod Sums
pub mod Parallel
pub mod Books
pub mod Balance
pub mod Overlap
pub mod Ended
pub mod Halting
pub mod Justified
pub mod Warrant
pub mod Warranted
