-- ===== src/Tests.antt =====
-- Concrete worlds, and the theorems at inputs that meet their hypotheses.
mod World
mod Config
mod Spawner
mod Docker
mod Webhook
mod Reconciler
mod Cleanup
mod Smee
mod Portal
mod Main
mod Process
mod Sweep
