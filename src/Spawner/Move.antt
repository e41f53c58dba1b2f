-- ===== src/Spawner/Move.antt =====
-- The steps of a goroutine in `Spawn` outside of the mutex operations, under the invariant.
use native.Mathlib.Decide.{ℕ_discrete}
use autoscaler.Common.{
  Bool-cases, arith, inl, inr, pos, refl, subst, sym, ℕ, ◌∷◌, ◌≡◌, ◌≢◌, ◌≤ℤ◌, ◌≤◌, ◌⊎◌,
}
use autoscaler.Config.{RepoConfig}
use autoscaler.Env.{Env}
use autoscaler.Spawner.{run_args}
use autoscaler.Spawner.Cap.{
  Adds-Shrinks, Knows, Knows-Shrinks, Knows-idle, Knows-launched, Shrinks, advance-Knows, live,
}
use autoscaler.Spawner.Docker.{Docker}
use autoscaler.Spawner.Goroutine.{Pc, advance, launching}
use autoscaler.Spawner.Interleaving.{System, move, set_pc}
use autoscaler.Spawner.Invariant.{Inv, set_pc_ne, set_pc_self}
use autoscaler.Spawner.Mutex.{Step-Guarded}
use autoscaler.Spawner.Steps.{advance-Adds, holds, run_container-trace}
use autoscaler.Text.{Bytes, bytes_eq}
use autoscaler.Text.Equality.{bytes_eq_iff, eq_of_bytes_eq}
use autoscaler.World.{Machine, Spawner, docker}

launching_cases :
    (pc : Pc)
    → ((name env_file path : Bytes) × (pc ≡ launching name env_file path))
      ⊎ ((name env_file path : Bytes) → pc ≢ launching name env_file path)
launching_cases (launching name env_file path) = inl (name, env_file, path, refl)
launching_cases pc = inr (λ name env_file path h. cc)

module _ (e : Env) (sp : Spawner) (d : Docker e sp) (job : ℕ → RepoConfig) (cap : Bytes → ℕ) where
  module _ (caps : (i : ℕ) → (job i).max_concurrency ≤ℤ pos (cap (job i).name)) (s : System)
      (v : Inv e sp d job cap s) (i : ℕ) where
    abbrev after : Pc × Machine
    after = advance e sp (job i) (s.pc i) s.machine

    abbrev next_system : System
    next_system = record s { machine = after.1; pc = set_pc s.pc i after.0 }

    -- The step before `docker run` is the only one that may add a container.
    quiet_move :
        ((name env_file path : Bytes) → s.pc i ≢ launching name env_file path)
        → (repo : Bytes) → Shrinks e sp d s.machine.trace after.1.trace repo
    quiet_move h repo = Adds-Shrinks e sp d repo (advance-Adds e sp (job i) (s.pc i) s.machine h)

    module _ (name env_file path : Bytes) (at_run : s.pc i ≡ launching name env_file path) where
      run_trace :
          after.1.trace
          ≡ docker
              (run_args sp (job i) name env_file)
              (e.run_docker s.machine.trace (run_args sp (job i) name env_file))
            ∷ s.machine.trace
      unfolding advance
      run_trace =
          rw (at_run, advance) (run_container-trace e sp (job i) name env_file path s.machine)

      run_others :
          (repo : Bytes) → (job i).name ≢ repo → Shrinks e sp d s.machine.trace after.1.trace repo
      run_others repo h = rw run_trace (d.other_keeps s.machine.trace (job i) name env_file repo h)

      run_own : live e sp d after.1.trace (job i).name ≤ cap (job i).name
      run_own =
          let room = (v.knows i).room (rw at_run refl) in
          let added = d.run_adds s.machine.trace (job i) name env_file in
          rw run_trace (omega (arith, added, room, caps i))

      run-Knows : Knows e sp d after.1.trace (job i) after.0
      run-Knows =
          subst (λ pc. Knows e sp d after.1.trace (job i) (advance e sp (job i) pc s.machine).0)
            (sym at_run) (Knows-launched e sp d (job i) s.machine name env_file path after.1.trace)

      -- Another goroutine has another repository, or does not hold the mutex.
      run-Knows_other : (j : ℕ) → i ≢ j → Knows e sp d after.1.trace (job j) (s.pc j)
      run-Knows_other j ne = elim (Bool-cases (holds (s.pc j))) [
        | inl h ↦
            Knows-Shrinks e sp d s.machine.trace after.1.trace (job j) (s.pc j)
              (run_others (job j).name
                (λ same. ne (v.guarded.exclusive i j (rw at_run refl) h same)))
              (v.knows j)
        | inr h ↦ Knows-idle e sp d after.1.trace (job j) (s.pc j) h
      ]

      run_capped : (repo : Bytes) → live e sp d after.1.trace repo ≤ cap repo
      run_capped repo = elim (Bool-cases (bytes_eq (job i).name repo)) [
        | inl same ↦
            subst (λ r. live e sp d after.1.trace r ≤ cap r) (eq_of_bytes_eq (job i).name repo same)
              run_own
        | inr differs ↦ omega (
          arith,
          v.capped repo,
          (run_others repo (λ same. cc ((bytes_eq_iff (job i).name repo).1 same))).count,
        )
      ]

    Knows-after :
        Knows e sp d after.1.trace (job i) after.0
        → ((j : ℕ) → i ≢ j → Knows e sp d after.1.trace (job j) (s.pc j))
        → (j : ℕ) → Knows e sp d after.1.trace (job j) (set_pc s.pc i after.0 j)
    Knows-after own others j = elim (ℕ_discrete i j) [
      | yes same ↦
          subst (λ k. Knows e sp d after.1.trace (job k) (set_pc s.pc i after.0 k)) same
            (rw (set_pc_self s.pc i after.0) own)
      | no differs ↦ rw (set_pc_ne s.pc i after.0 j differs) (others j differs)
    ]

    moved :
        ((j : ℕ) → Knows e sp d after.1.trace (job j) (set_pc s.pc i after.0 j))
        → ((repo : Bytes) → live e sp d after.1.trace repo ≤ cap repo)
        → Inv e sp d job cap next_system
    moved known bounded = record {
      guarded = Step-Guarded e sp job (move i) v.guarded;
      knows = known;
      capped = bounded;
    }

    pub move-Inv : Inv e sp d job cap next_system
    move-Inv = elim (launching_cases (s.pc i)) [
      | inl (name, env_file, path, h) ↦
          moved
            (Knows-after (run-Knows name env_file path h) (run-Knows_other name env_file path h))
            (run_capped name env_file path h)
      | inr h ↦
          moved
            (Knows-after
              (advance-Knows e sp d (job i) s.machine (s.pc i) (quiet_move h (job i).name)
                (v.knows i))
              (λ j ne.
                Knows-Shrinks e sp d s.machine.trace after.1.trace (job j) (s.pc j)
                  (quiet_move h (job j).name) (v.knows j)))
            (λ repo. omega (arith, v.capped repo, (quiet_move h repo).count))
    ]
