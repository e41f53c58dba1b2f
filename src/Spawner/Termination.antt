-- ===== src/Spawner/Termination.antt =====
-- internal/spawner/spawner.go: the steps that a call of `Spawn` takes of its own.
use autoscaler.Common.{arith, if◌then◌else◌, ℕ, ◌&&◌, ◌+◌, ◌==◌, ◌≤◌}
use autoscaler.Config.{RepoConfig}
use autoscaler.Env.{Env}
use autoscaler.Spawner.Interleaving.{
  Reach, Step, System, here, lock, move, next, outside, recounts, toggle, unlock,
}
use autoscaler.Spawner.Progress.{advance-rank, advance_waits, rank, runs}
use autoscaler.World.{Machine, Spawner}

module _ (e : Env) (sp : Spawner) (job : ℕ → RepoConfig) where
  -- One, if this is a step of goroutine i that does something.
  abbrev step_own : {s t : System} → ℕ → Step e sp job s t → ℕ
  step_own {s} i (move j) = if i == j && runs (s.pc j) then 1 else 0
  step_own i (lock j at_lock free) = if i == j then 1 else 0
  step_own i (unlock j result at_end) = if i == j then 1 else 0
  step_own i (toggle p) = 0
  step_own i (recounts c) = 0
  step_own i (outside ev quiet) = 0

  -- The steps of goroutine i in a run; a wait for the mutex is no step.
  abbrev pub own_steps : {m : Machine} {s : System} → ℕ → Reach e sp job m s → ℕ
  own_steps i here = 0
  own_steps i (next r st) = own_steps i r + step_own i st

  step_own-rank :
      {s t : System} (i : ℕ) (st : Step e sp job s t)
      → step_own i st + rank (t.pc i) ≤ rank (s.pc i)
  step_own-rank {s} i (move j) = ground (
    arith,
    advance-rank e sp (job j) (s.pc j) s.machine,
    advance_waits e sp (job j) (s.pc j) s.machine,
  )
  step_own-rank {s} i (lock j at_lock free) = ground arith
  step_own-rank {s} i (unlock j result at_end) = ground arith
  step_own-rank i (toggle p) = omega arith
  step_own-rank i (recounts c) = omega arith
  step_own-rank i (outside ev quiet) = omega arith

  -- In every run from the start, a call of Spawn has taken at most 13 steps of its own less those
  -- that are left, and so at most 13, whatever the other goroutines and the world do.
  pub own_steps-rank :
      (m : Machine) {s : System} (i : ℕ) (r : Reach e sp job m s)
      → own_steps i r + rank (s.pc i) ≤ 13
  own_steps-rank m i here = omega arith
  own_steps-rank m i (next r st) = omega (arith, own_steps-rank m i r, step_own-rank i st)
