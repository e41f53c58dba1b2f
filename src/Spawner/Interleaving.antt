-- ===== src/Spawner/Interleaving.antt =====
-- Any number of goroutines in `Spawn` over one `Spawner`: the webhook handler's, the reconciler's
-- and those of manual reconciles. Goroutine i works for the repository `job i`. The mutexes of
-- `repoMu` are one flag for each name. `s.repoLock` itself cannot block, and is part of `lock`.
use autoscaler.Common.{Bool, Option, false, if◌then◌else◌, true, ℕ, ◌==◌, ◌≡◌}
use autoscaler.Config.{RepoConfig}
use autoscaler.Env.{Env}
use autoscaler.Spawner.{SpawnError, set_paused}
use autoscaler.Spawner.Docker.{is_run_event}
use autoscaler.Spawner.Goroutine.{Pc, advance, checking, finished, leaving, queued, ready}
use autoscaler.Text.{Bytes, bytes_eq}
use autoscaler.World.{CleanerState, Event, Machine, Spawner, emit}

pub record System : Type 0 where
  pub machine : Machine
  pub pc : ℕ → Pc
  pub locked : Bytes → Bool

abbrev pub set_pc : (ℕ → Pc) → ℕ → Pc → ℕ → Pc
set_pc f i p j = if i == j then p else f j

abbrev pub set_locked : (Bytes → Bool) → Bytes → Bool → Bytes → Bool
set_locked f name b other = if bytes_eq name other then b else f other

module _ (e : Env) (sp : Spawner) (job : ℕ → RepoConfig) where
  pub data Step (s : System) : System → Type 0 where
    -- One step of goroutine i between the operations on the mutex.
    move :
        (i : ℕ)
        → Step s (record s {
          machine = (advance e sp (job i) (s.pc i) s.machine).1;
          pc = set_pc s.pc i (advance e sp (job i) (s.pc i) s.machine).0;
        })
    -- `mu.Lock()` returns, where the mutex is free.
    lock :
        (i : ℕ)
        → s.pc i ≡ queued
        → s.locked (job i).name ≡ false
        → Step s (record s {
          pc = set_pc s.pc i checking;
          locked = set_locked s.locked (job i).name true;
        })
    -- `mu.Unlock()`.
    unlock :
        (i : ℕ) (result : Option SpawnError)
        → s.pc i ≡ leaving result
        → Step s (record s {
          pc = set_pc s.pc i (finished result);
          locked = set_locked s.locked (job i).name false;
        })
    -- The portal pauses or resumes.
    toggle : (p : Bool) → Step s (record s { machine = (set_paused p s.machine).1 })
    -- Other goroutines of the process call the world, without `docker run`.
    outside :
        (ev : Event)
        → is_run_event ev ≡ false
        → Step s (record s { machine = (emit ev s.machine).1 })
    -- The cleaner moves its counters or keeps a summary.
    recounts :
        (c : CleanerState) → Step s (record s { machine = record (s.machine) { cleaner = c } })

  -- All goroutines stand before their first step, and no mutex is taken.
  abbrev pub initial : Machine → System
  initial m = record { machine = m; pc = λ _. ready; locked = λ _. false }

  pub data Reach (m : Machine) : System → Type 0 where
    here : Reach m (initial m)
    next : {s t : System} → Reach m s → Step s t → Reach m t
