-- ===== src/Spawner/Progress.antt =====
-- How far a goroutine in `Spawn` still has to go.
-- At most so many steps are left, the operations on the mutex included.
use autoscaler.Common.{Bool, arith, false, refl, true, ℕ, ◌<◌, ◌≡◌}
use autoscaler.Config.{RepoConfig}
use autoscaler.Env.{Env}
use autoscaler.Spawner.Goroutine.{
  Pc, advance, check_idle, checking, closing, creating, discarding, failing, finished,
  inspect_containers, inspecting, judge, launching, leaving, list_containers, listing, moding,
  naming, queued, ready, removing, run_container, writing,
}
use autoscaler.World.{Machine, Spawner}

abbrev pub rank : Pc → ℕ
rank ready = 13
rank queued = 12
rank checking = 11
rank listing = 10
rank (inspecting ids) = 9
rank naming = 8
rank (creating name) = 7
rank (moding name path) = 6
rank (writing name path) = 5
rank (closing name path) = 4
rank (discarding path x) = 3
rank (failing path x) = 2
rank (launching name env_file path) = 3
rank (removing path result) = 2
rank (leaving result) = 1
rank (finished result) = 0

-- Where a goroutine does not wait for the mutex, give it back, or stand at its end.
abbrev pub runs : Pc → Bool
runs queued = false
runs (leaving result) = false
runs (finished result) = false
runs pc = true

module _ (e : Env) (sp : Spawner) (repo : RepoConfig) where
  pub advance-rank :
      (pc : Pc) (m : Machine) → runs pc ≡ true → rank (advance e sp repo pc m).0 < rank pc
  unfolding advance check_idle list_containers inspect_containers judge run_container
  advance-rank ready m h = ground arith
  advance-rank checking m h = ground arith
  advance-rank listing m h = ground arith
  advance-rank (inspecting ids) m h = ground arith
  advance-rank naming m h = ground arith
  advance-rank (creating name) m h = ground arith
  advance-rank (moding name path) m h = ground arith
  advance-rank (writing name path) m h = ground arith
  advance-rank (closing name path) m h = ground arith
  advance-rank (launching name env_file path) m h = ground arith
  advance-rank _ m h = ground arith

  pub advance_waits : (pc : Pc) (m : Machine) → runs pc ≡ false → advance e sp repo pc m ≡ (pc, m)
  unfolding advance
  advance_waits queued m h = refl
  advance_waits (leaving result) m h = refl
  advance_waits (finished result) m h = refl
  advance_waits _ m h = ground arith
