-- ===== src/Spawner/Spawned.antt =====
-- internal/spawner/spawner.go: the counter of started runners while goroutines interleave.
use autoscaler.Common.{List, arith, false, refl, suc, ℕ, ◌%◌, ◌^◌, ◌∷◌, ◌≡◌}
use autoscaler.Config.{RepoConfig}
use autoscaler.Env.{Env}
use autoscaler.Spawner.{inspect_args, ps_args, run_args, set_paused}
use autoscaler.Spawner.Docker.{is_run_event}
use autoscaler.Spawner.Goroutine.{
  Pc, advance, check_idle, checking, closing, creating, discarding, failing, finished,
  inspect_containers, inspecting, judge, launching, leaving, list_containers, listing, moding,
  naming, queued, ready, removing, run_container, writing,
}
use autoscaler.Spawner.Interleaving.{
  Reach, Step, System, here, lock, move, next, outside, recounts, toggle, unlock,
}
use autoscaler.Spawner.Runs.{has_idle-Quiet, started}
use autoscaler.Text.{Bytes}
use autoscaler.World.{Event, Machine, Spawner, Trace, docker, increment}

pub increment_lem : (n k : ℕ) → n ≡ k % 2 ^ 64 → increment n ≡ suc k % 2 ^ 64
increment_lem n k h = omega arith

-- The counter is the number of successful `docker run` commands of the history, up to 64 bits.
abbrev pub CountsRuns : Machine → Type 0
CountsRuns m = m.spawner.total_spawned ≡ started m.trace % 2 ^ 64

quiet-started : (ev : Event) (t : Trace) → is_run_event ev ≡ false → started (ev ∷ t) ≡ started t
quiet-started (docker args a) t h = ground (arith, h)
quiet-started _ t h = refl

module _ (e : Env) (sp : Spawner) (wet : sp.dry_run ≡ false) where
  check_idle-CountsRuns :
      (repo : RepoConfig) (m : Machine) → CountsRuns m → CountsRuns (check_idle e sp repo m).1
  unfolding check_idle
  check_idle-CountsRuns repo m h = ground (arith, has_idle-Quiet e sp repo m)

  list_containers-CountsRuns :
      (repo : RepoConfig) (m : Machine) → CountsRuns m → CountsRuns (list_containers e sp repo m).1
  unfolding list_containers judge ps_args
  list_containers-CountsRuns repo m h = ground arith

  inspect_containers-CountsRuns :
      (repo : RepoConfig) (ids : List Bytes) (m : Machine)
      → CountsRuns m
      → CountsRuns (inspect_containers e sp repo ids m).1
  unfolding inspect_containers judge inspect_args
  inspect_containers-CountsRuns repo ids m h = ground arith

  run_container-CountsRuns :
      (repo : RepoConfig) (name env_file path : Bytes) (m : Machine)
      → CountsRuns m
      → CountsRuns (run_container e sp repo name env_file path m).1
  unfolding run_container run_args
  run_container-CountsRuns repo name env_file path m h =
      ground (arith, increment_lem m.spawner.total_spawned (started m.trace) h)

  advance-CountsRuns :
      (repo : RepoConfig) (pc : Pc) (m : Machine)
      → CountsRuns m
      → CountsRuns (advance e sp repo pc m).1
  unfolding advance
  advance-CountsRuns repo checking m h = check_idle-CountsRuns repo m h
  advance-CountsRuns repo listing m h = list_containers-CountsRuns repo m h
  advance-CountsRuns repo (inspecting ids) m h = inspect_containers-CountsRuns repo ids m h
  advance-CountsRuns repo (launching name env_file path) m h =
      run_container-CountsRuns repo name env_file path m h
  advance-CountsRuns repo naming m h = ground arith
  advance-CountsRuns repo ready m h = ground arith
  advance-CountsRuns repo (creating name) m h = ground arith
  advance-CountsRuns repo (moding name path) m h = ground arith
  advance-CountsRuns repo (writing name path) m h = ground arith
  advance-CountsRuns repo (closing name path) m h = ground arith
  advance-CountsRuns repo (discarding path x) m h = h
  advance-CountsRuns repo (failing path x) m h = h
  advance-CountsRuns repo (removing path result) m h = h
  advance-CountsRuns repo queued m h = h
  advance-CountsRuns repo (leaving result) m h = h
  advance-CountsRuns repo (finished result) m h = h

  module _ (job : ℕ → RepoConfig) where
    Step-CountsRuns :
        {s t : System} → Step e sp job s t → CountsRuns s.machine → CountsRuns t.machine
    unfolding set_paused
    Step-CountsRuns {s} (move i) h = advance-CountsRuns (job i) (s.pc i) s.machine h
    Step-CountsRuns (lock i at_lock free) h = h
    Step-CountsRuns (unlock i result at_end) h = h
    Step-CountsRuns (toggle p) h = h
    Step-CountsRuns (recounts c) h = h
    Step-CountsRuns {s} (outside ev quiet) h = rw (quiet-started ev s.machine.trace quiet) h

    -- Outside of a dry run, in every state that any interleaving of Spawn calls, pauses and other
    -- calls reaches from one where total_spawned is the number of containers started, up to 64
    -- bits, it is that number.
    pub Reach-CountsRuns :
        {m : Machine} {s : System} → Reach e sp job m s → CountsRuns m → CountsRuns s.machine
    Reach-CountsRuns here h = h
    Reach-CountsRuns (next r st) h = Step-CountsRuns st (Reach-CountsRuns r h)
