-- ===== src/Spawner/Invariant.antt =====
-- What holds of the goroutines in `Spawn`, their mutexes and the containers between two steps.
use autoscaler.Common.{arith, true, ℕ, ◌≡◌, ◌≢◌, ◌≤◌}
use autoscaler.Config.{RepoConfig}
use autoscaler.Env.{Env}
use autoscaler.Spawner.Cap.{Knows, Knows-Shrinks, Shrinks, live}
use autoscaler.Spawner.Docker.{Docker}
use autoscaler.Spawner.Goroutine.{Pc}
use autoscaler.Spawner.Interleaving.{System, set_pc}
use autoscaler.Spawner.Steps.{holds}
use autoscaler.Text.{Bytes}
use autoscaler.World.{Machine, Spawner}

pub set_pc_self : (f : ℕ → Pc) (i : ℕ) (p : Pc) → set_pc f i p i ≡ p
set_pc_self f i p = ground arith

pub set_pc_ne : (f : ℕ → Pc) (i : ℕ) (p : Pc) (j : ℕ) → i ≢ j → set_pc f i p j ≡ f j
set_pc_ne f i p j h = ground arith

-- A step that keeps who holds a mutex.
pub holds-set_pc :
    (f : ℕ → Pc) (i : ℕ) (p : Pc) (j : ℕ)
    → holds p ≡ holds (f i)
    → holds (set_pc f i p j) ≡ holds (f j)
holds-set_pc f i p j h = ground arith

module _ (job : ℕ → RepoConfig) where
  -- What the mutexes guarantee.
  pub record Guarded (s : System) : Type 0 where
    pub exclusive :
        (i j : ℕ)
        → holds (s.pc i) ≡ true
        → holds (s.pc j) ≡ true
        → (job i).name ≡ (job j).name
        → i ≡ j
    pub taken : (i : ℕ) → holds (s.pc i) ≡ true → s.locked (job i).name ≡ true

  pub elsewhere-Guarded :
      (s : System) (m : Machine) → Guarded s → Guarded (record s { machine = m })
  elsewhere-Guarded s m v = record { exclusive = v.exclusive; taken = v.taken }

module _ (e : Env) (sp : Spawner) (d : Docker e sp) (job : ℕ → RepoConfig) (cap : Bytes → ℕ) where
  pub record Inv (s : System) : Type 0 where
    pub guarded : Guarded job s
    pub knows : (i : ℕ) → Knows e sp d s.machine.trace (job i) (s.pc i)
    pub capped : (repo : Bytes) → live e sp d s.machine.trace repo ≤ cap repo

  -- A history in which no repository gained a container, at the same places.
  pub quiet-Inv :
      (s : System) (m : Machine)
      → ((repo : Bytes) → Shrinks e sp d s.machine.trace m.trace repo)
      → Inv s
      → Inv (record s { machine = m })
  quiet-Inv s m f v = record {
    guarded = elsewhere-Guarded job s m v.guarded;
    knows = λ i.
        Knows-Shrinks e sp d s.machine.trace m.trace (job i) (s.pc i) (f (job i).name) (v.knows i);
    capped = λ repo. omega (arith, v.capped repo, (f repo).count);
  }
