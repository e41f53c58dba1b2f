-- ===== src/Spawner/Mutex.antt =====
-- `mu.Lock()` and `mu.Unlock()` of internal/spawner/spawner.go over every interleaving.
use native.Mathlib.Decide.{ℕ_discrete}
use autoscaler.Common.{
  Bool-cases, Option, ap, arith, false, inl, inr, refl, subst, sym, true, ℕ, ◌↔◌, ◌∙◌, ◌≡◌,
}
use autoscaler.Config.{RepoConfig}
use autoscaler.Env.{Env}
use autoscaler.Spawner.{SpawnError, set_paused}
use autoscaler.Spawner.Goroutine.{advance, checking, finished, leaving}
use autoscaler.Spawner.Interleaving.{
  Reach, Step, System, here, lock, move, next, outside, recounts, set_locked, set_pc, toggle,
  unlock,
}
use autoscaler.Spawner.Invariant.{Guarded, elsewhere-Guarded, holds-set_pc, set_pc_ne}
use autoscaler.Spawner.Owners.{Reach-Owned}
use autoscaler.Spawner.Steps.{advance-holds, holds}
use autoscaler.Text.{Bytes, bytes_eq}
use autoscaler.Text.Equality.{bytes_eq_refl, eq_of_bytes_eq}
use autoscaler.World.{Machine, Spawner, emit}

module _ (job : ℕ → RepoConfig) where
  -- An operation on the mutex of goroutine i's repository, which leaves it at p.
  module _ (s : System) (v : Guarded job s) (i : ℕ) where
    -- Nobody holds a mutex that is free.
    free_unheld :
        s.locked (job i).name ≡ false
        → (j : ℕ) → (job i).name ≡ (job j).name
        → holds (s.pc j) ≡ true
        → ⊥
    free_unheld free j same h = cc (free, ap s.locked same, v.taken j h)

    lock-exclusive :
        s.locked (job i).name ≡ false
        → (j k : ℕ) → holds (set_pc s.pc i checking j) ≡ true
        → holds (set_pc s.pc i checking k) ≡ true
        → (job j).name ≡ (job k).name
        → j ≡ k
    lock-exclusive free j k hj hk same = elim (ℕ_discrete i j) [
      | yes ij ↦ elim (ℕ_discrete i k) [
        | yes ik ↦ cc
        | no nk ↦ absurd (
            free_unheld free k (ap (λ n. (job n).name) ij ∙ same)
              (rw (set_pc_ne s.pc i checking k nk) at hk))
      ]
      | no nj ↦ elim (ℕ_discrete i k) [
        | yes ik ↦ absurd (
            free_unheld free j (ap (λ n. (job n).name) ik ∙ sym same)
              (rw (set_pc_ne s.pc i checking j nj) at hj))
        | no nk ↦
            v.exclusive j k (rw (set_pc_ne s.pc i checking j nj) at hj)
              (rw (set_pc_ne s.pc i checking k nk) at hk) same
      ]
    ]

    lock-taken :
        (j : ℕ)
        → holds (set_pc s.pc i checking j) ≡ true
        → set_locked s.locked (job i).name true (job j).name ≡ true
    lock-taken j h = elim (ℕ_discrete i j) [
      | yes same ↦
          subst (λ n. set_locked s.locked (job i).name true (job n).name ≡ true) same
            (rw (bytes_eq_refl (job i).name))
      | no differs ↦ ground (arith, v.taken j (rw (set_pc_ne s.pc i checking j differs) at h))
    ]

    unlock-taken :
        (result : Option SpawnError)
        → s.pc i ≡ leaving result
        → (j : ℕ) → holds (set_pc s.pc i (finished result) j) ≡ true
        → set_locked s.locked (job i).name false (job j).name ≡ true
    unlock-taken result at_end j h = elim (ℕ_discrete i j) [
      | yes same ↦ ground arith
      | no differs ↦
          let held : holds (s.pc j) ≡ true =
            rw (set_pc_ne s.pc i (finished result) j differs) at h in
          elim (Bool-cases (bytes_eq (job i).name (job j).name)) [
            | inl same ↦ absurd (
                differs (
                  v.exclusive i j (rw at_end refl) held
                    (eq_of_bytes_eq (job i).name (job j).name same)))
            | inr other_name ↦ rw other_name (v.taken j held)
          ]
    ]

    holds_before_unlock :
        (result : Option SpawnError) (j : ℕ)
        → holds (set_pc s.pc i (finished result) j) ≡ true
        → holds (s.pc j) ≡ true
    holds_before_unlock result j h = ground arith

    lock-Guarded :
        s.locked (job i).name ≡ false
        → Guarded job (record s {
          pc = set_pc s.pc i checking;
          locked = set_locked s.locked (job i).name true;
        })
    lock-Guarded free = record { exclusive = lock-exclusive free; taken = lock-taken }

    unlock-Guarded :
        (result : Option SpawnError)
        → s.pc i ≡ leaving result
        → Guarded job (record s {
          pc = set_pc s.pc i (finished result);
          locked = set_locked s.locked (job i).name false;
        })
    unlock-Guarded result at_end = record {
      exclusive = λ j k hj hk.
          v.exclusive j k (holds_before_unlock result j hj) (holds_before_unlock result k hk);
      taken = unlock-taken result at_end;
    }

  -- Two different goroutines never hold the mutex of one name, and a mutex is taken exactly while
  -- a goroutine holds it.
  pub record OneHolder (s : System) : Type 0 where
    pub exclusive :
        (i j : ℕ)
        → holds (s.pc i) ≡ true
        → holds (s.pc j) ≡ true
        → (job i).name ≡ (job j).name
        → i ≡ j
    pub taken_iff :
        (name : Bytes)
        → (s.locked name ≡ true) ↔ ((j : ℕ) × (holds (s.pc j) ≡ true) × ((job j).name ≡ name))

module _ (e : Env) (sp : Spawner) (job : ℕ → RepoConfig) where
  move-Guarded :
      (s : System) (i : ℕ)
      → Guarded job s
      → let r = advance e sp (job i) (s.pc i) s.machine in
        Guarded job (record s { machine = r.1; pc = set_pc s.pc i r.0 })
  move-Guarded s i v =
      let r = advance e sp (job i) (s.pc i) s.machine in
      let still_holds : (j : ℕ) → holds (set_pc s.pc i r.0 j) ≡ holds (s.pc j) =
        λ j. holds-set_pc s.pc i r.0 j (advance-holds e sp (job i) (s.pc i) s.machine) in
      record {
        exclusive =
            λ j k hj hk. v.exclusive j k (sym (still_holds j) ∙ hj) (sym (still_holds k) ∙ hk);
        taken = λ j hj. v.taken j (sym (still_holds j) ∙ hj);
      }

  pub Step-Guarded : {s t : System} → Step e sp job s t → Guarded job s → Guarded job t
  Step-Guarded {s} (move i) v = move-Guarded s i v
  Step-Guarded {s} (lock i at_lock free) v = lock-Guarded job s v i free
  Step-Guarded {s} (unlock i result at_end) v = unlock-Guarded job s v i result at_end
  Step-Guarded {s} (toggle p) v = elsewhere-Guarded job s (set_paused p s.machine).1 v
  Step-Guarded {s} (recounts c) v = elsewhere-Guarded job s (record (s.machine) { cleaner = c }) v
  Step-Guarded {s} (outside ev quiet) v = elsewhere-Guarded job s (emit ev s.machine).1 v

  Reach-Guarded : (m : Machine) {s : System} → Reach e sp job m s → Guarded job s
  Reach-Guarded m here = record { exclusive = λ i j hi. cc; taken = λ i hi. cc }
  Reach-Guarded m (next r st) = Step-Guarded st (Reach-Guarded m r)

  -- In every state that any interleaving of Spawn calls, pauses and other calls reaches, whatever
  -- Docker and GitHub answer: two calls of Spawn for repositories of the same name are never both
  -- between the lock and the unlock of the mutex, and the mutex of a name is taken exactly if a
  -- call for that name is between them.
  pub mutual_exclusion : (m : Machine) {s : System} → Reach e sp job m s → OneHolder job s
  mutual_exclusion m {s} r =
      let v = Reach-Guarded m r in
      record {
        exclusive = v.exclusive;
        taken_iff = λ name. (
          Reach-Owned e sp job m r name,
          λ (j, h, named). subst (λ k. s.locked k ≡ true) named (v.taken j h),
        );
      }
