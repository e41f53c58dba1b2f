-- ===== src/Spawner/Safety.antt =====
-- internal/spawner/spawner.go: `max_concurrency` over every interleaving.
use native.Mathlib.Decide.{ℕ_discrete}
use autoscaler.Common.{arith, pos, refl, subst, ℕ, ◌≤ℤ◌, ◌≤◌}
use autoscaler.Config.{RepoConfig}
use autoscaler.Env.{Env}
use autoscaler.Spawner.{set_paused}
use autoscaler.Spawner.Cap.{Knows, Knows-idle, live}
use autoscaler.Spawner.Docker.{Docker}
use autoscaler.Spawner.Goroutine.{Pc, checking, finished}
use autoscaler.Spawner.Interleaving.{
  Reach, Step, System, here, initial, lock, move, next, outside, recounts, set_pc, toggle, unlock,
}
use autoscaler.Spawner.Invariant.{Inv, quiet-Inv, set_pc_ne, set_pc_self}
use autoscaler.Spawner.Move.{move-Inv}
use autoscaler.Spawner.Mutex.{Step-Guarded}
use autoscaler.Text.{Bytes}
use autoscaler.World.{Machine, Spawner, emit}

module _ (e : Env) (sp : Spawner) (d : Docker e sp) (job : ℕ → RepoConfig) (cap : Bytes → ℕ) where
  -- An operation on a mutex, which leaves goroutine i at p.
  Knows-set_pc :
      (s : System) (i : ℕ)
      → ((j : ℕ) → Knows e sp d s.machine.trace (job j) (s.pc j))
      → (p : Pc) → Knows e sp d s.machine.trace (job i) p
      → (j : ℕ) → Knows e sp d s.machine.trace (job j) (set_pc s.pc i p j)
  Knows-set_pc s i known p k j = elim (ℕ_discrete i j) [
    | yes same ↦
        subst (λ n. Knows e sp d s.machine.trace (job n) (set_pc s.pc i p n)) same
          (rw (set_pc_self s.pc i p) k)
    | no differs ↦ rw (set_pc_ne s.pc i p j differs) (known j)
  ]

  module _ (caps : (i : ℕ) → (job i).max_concurrency ≤ℤ pos (cap (job i).name)) where
    Step-Inv : {s t : System} → Step e sp job s t → Inv e sp d job cap s → Inv e sp d job cap t
    Step-Inv {s} (move i) v = move-Inv e sp d job cap caps s v i
    Step-Inv {s} (lock i h free) v = record {
      guarded = Step-Guarded e sp job (lock i h free) v.guarded;
      knows = Knows-set_pc s i v.knows checking (record { covers = λ ids l. cc; room = λ l. cc });
      capped = v.capped;
    }
    Step-Inv {s} (unlock i result h) v = record {
      guarded = Step-Guarded e sp job (unlock i result h) v.guarded;
      knows =
          Knows-set_pc s i v.knows (finished result)
            (Knows-idle e sp d s.machine.trace (job i) (finished result) refl);
      capped = v.capped;
    }
    Step-Inv {s} (toggle p) v =
        quiet-Inv e sp d job cap s (set_paused p s.machine).1
          (λ repo. unfold set_paused in record { among = λ x h. h; count = omega arith }) v
    Step-Inv {s} (recounts c) v =
        quiet-Inv e sp d job cap s (record (s.machine) { cleaner = c })
          (λ repo. record { among = λ x h. h; count = omega arith }) v
    Step-Inv {s} (outside ev h) v =
        quiet-Inv e sp d job cap s (emit ev s.machine).1
          (λ repo. d.quiet_keeps s.machine.trace ev repo h) v

    Inv-initial :
        (m : Machine)
        → ((repo : Bytes) → live e sp d m.trace repo ≤ cap repo)
        → Inv e sp d job cap (initial e sp job m)
    Inv-initial m within = record {
      guarded = record { exclusive = λ i j hi. cc; taken = λ i hi. cc };
      knows = λ i. record { covers = λ ids l. cc; room = λ l. cc };
      capped = within;
    }

    Reach-Inv :
        (m : Machine)
        → ((repo : Bytes) → live e sp d m.trace repo ≤ cap repo)
        → {s : System} → Reach e sp job m s
        → Inv e sp d job cap s
    Reach-Inv m within here = Inv-initial m within
    Reach-Inv m within (next r st) = Step-Inv st (Reach-Inv m within r)

    -- If no goroutine's `max_concurrency` is above the cap of its repository's name, and no repository is above its cap at
    -- the start, then in every reachable state no repository has more running containers than its
    -- cap, whatever the interleaving of the goroutines.
    pub cap_respected :
        (m : Machine)
        → ((repo : Bytes) → live e sp d m.trace repo ≤ cap repo)
        → {s : System} → Reach e sp job m s
        → (repo : Bytes) → live e sp d s.machine.trace repo ≤ cap repo
    cap_respected m within r = (Reach-Inv m within r).capped
