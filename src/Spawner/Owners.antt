-- ===== src/Spawner/Owners.antt =====
-- internal/spawner/spawner.go: the holders of the mutexes.
use autoscaler.Common.{Bool-cases, ap, arith, inl, inr, refl, true, ℕ, ◌∙◌, ◌≡◌, ◌≢◌}
use autoscaler.Config.{RepoConfig}
use autoscaler.Env.{Env}
use autoscaler.Spawner.Goroutine.{Pc, checking, finished}
use autoscaler.Spawner.Interleaving.{
  Reach, Step, System, here, lock, move, next, outside, recounts, set_pc, toggle, unlock,
}
use autoscaler.Spawner.Invariant.{holds-set_pc, set_pc_self}
use autoscaler.Spawner.Steps.{advance-holds, holds}
use autoscaler.Text.{Bytes, bytes_eq}
use autoscaler.Text.Equality.{bytes_eq_refl, eq_of_bytes_eq}
use autoscaler.World.{Machine, Spawner}

module _ (e : Env) (sp : Spawner) (job : ℕ → RepoConfig) where
  -- A mutex that is taken is held by a goroutine.
  abbrev pub Owned : System → Type 0
  Owned s =
      (name : Bytes)
      → s.locked name ≡ true
      → (j : ℕ) × (holds (s.pc j) ≡ true) × ((job j).name ≡ name)

  holds-checking :
      (f : ℕ → Pc) (i j : ℕ) → holds (f j) ≡ true → holds (set_pc f i checking j) ≡ true
  holds-checking f i j h = ground arith

  holder_kept :
      (f : ℕ → Pc) (i j : ℕ) (p : Pc) → i ≢ j → holds (f j) ≡ true → holds (set_pc f i p j) ≡ true
  holder_kept f i j p differs h = ground arith

  pub Step-Owned : {s t : System} → Step e sp job s t → Owned s → Owned t
  Step-Owned {s} (move i) o name taken =
      let (j, h, named) = o name taken in
      (j, holds-set_pc s.pc i _ j (advance-holds e sp (job i) (s.pc i) s.machine) ∙ h, named)
  Step-Owned {s} (lock i at_lock free) o name taken =
      elim (Bool-cases (bytes_eq (job i).name name)) [
        | inl same ↦
            (i, rw (set_pc_self s.pc i checking) refl, eq_of_bytes_eq (job i).name name same)
        | inr other ↦
            let (j, h, named) = o name (rw other at taken) in (j, holds-checking s.pc i j h, named)
      ]
  Step-Owned {s} (unlock i result at_end) o name taken =
      elim (Bool-cases (bytes_eq (job i).name name)) [
        | inl same ↦ cc (taken, same)
        | inr other ↦
            let (j, h, named) = o name (rw other at taken) in
            (
              j,
              holder_kept s.pc i j (finished result)
                  (λ ij.
                    cc (other, ap (λ k. bytes_eq (job k).name name) ij, named, bytes_eq_refl name))
                  h,
              named,
            )
      ]
  Step-Owned (toggle p) o name taken = o name taken
  Step-Owned (recounts c) o name taken = o name taken
  Step-Owned (outside ev quiet) o name taken = o name taken

  pub Reach-Owned : (m : Machine) {s : System} → Reach e sp job m s → Owned s
  Reach-Owned m here = λ name taken. cc
  Reach-Owned m (next r st) = Step-Owned st (Reach-Owned m r)
