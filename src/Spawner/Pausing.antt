-- ===== src/Spawner/Pausing.antt =====
-- internal/spawner/spawner.go: the pause flag while goroutines interleave.
use autoscaler.Common.{
  Bool-cases, Option, arith, inl, inr, refl, some, subst, true, ℕ, ◌==◌, ◌∙◌, ◌≡◌, ◌⊎◌,
}
use autoscaler.Config.{RepoConfig}
use autoscaler.Env.{Env}
use autoscaler.Spawner.{SpawnError, has_idle_matching_runner, paused_error, set_paused}
use autoscaler.Spawner.Goroutine.{
  Pc, advance, check_idle, checking, closing, creating, discarding, failing, finished,
  inspect_containers, inspecting, judge, launching, leaving, list_containers, listing, moding,
  naming, queued, ready, removing, run_container, writing,
}
use autoscaler.Spawner.Interleaving.{
  Step, System, lock, move, outside, recounts, set_pc, toggle, unlock,
}
use autoscaler.Spawner.Paths.{Leads, onward, stay}
use autoscaler.World.{Machine, Spawner}

-- Where a call that does nothing else ends up.
abbrev pub IsTurnedAway : Pc → Type 0
IsTurnedAway pc = (pc ≡ ready) ⊎ (pc ≡ finished (some paused_error))

module _ (e : Env) (sp : Spawner) (job : ℕ → RepoConfig) where
  -- Nobody resumes in the run.
  abbrev pub Unresumed : {s t : System} → Leads e sp job s t → Type 0
  Unresumed stay = Unit
  Unresumed (onward l (toggle p)) = (p ≡ true) × Unresumed l
  Unresumed (onward l st) = Unresumed l

  check_idle-paused :
      (repo : RepoConfig) (m : Machine)
      → (check_idle e sp repo m).1.spawner.paused ≡ m.spawner.paused
  unfolding check_idle has_idle_matching_runner
  check_idle-paused repo m = ground arith

  -- Only the portal moves the flag.
  advance-paused :
      (repo : RepoConfig) (pc : Pc) (m : Machine)
      → (advance e sp repo pc m).1.spawner.paused ≡ m.spawner.paused
  unfolding advance list_containers inspect_containers judge run_container
  advance-paused repo checking m = check_idle-paused repo m
  advance-paused repo listing m = ground arith
  advance-paused repo (inspecting ids) m = ground arith
  advance-paused repo (launching name env_file path) m = ground arith
  advance-paused repo naming m = ground arith
  advance-paused repo ready m = ground arith
  advance-paused repo (creating name) m = ground arith
  advance-paused repo (moding name path) m = ground arith
  advance-paused repo (writing name path) m = ground arith
  advance-paused repo (closing name path) m = ground arith
  advance-paused repo (discarding path x) m = ground arith
  advance-paused repo (failing path x) m = ground arith
  advance-paused repo (removing path result) m = ground arith
  advance-paused repo queued m = refl
  advance-paused repo (leaving result) m = refl
  advance-paused repo (finished result) m = refl

  advance-IsTurnedAway :
      (repo : RepoConfig) (pc : Pc) (m : Machine)
      → m.spawner.paused ≡ true
      → IsTurnedAway pc
      → IsTurnedAway (advance e sp repo pc m).0
  unfolding advance
  advance-IsTurnedAway repo pc m paused (inl at_door) = inr (rw at_door (ground (arith, paused)))
  advance-IsTurnedAway repo pc m paused (inr over) = inr (rw over refl)

  -- A goroutine that moves leaves the places of the others alone.
  moved-IsTurnedAway :
      (s : System) (i j : ℕ) (pc : Pc)
      → IsTurnedAway (s.pc i)
      → (i ≡ j → IsTurnedAway pc)
      → IsTurnedAway (set_pc s.pc j pc i)
  moved-IsTurnedAway s i j pc away own = elim (Bool-cases (j == i)) [
    | inl same ↦ (let at : i ≡ j = ground (arith, same) in rw same (own at))
    | inr apart ↦ ground (arith, away, apart)
  ]

  queued_lem : ¬ IsTurnedAway queued
  queued_lem (inl h) = cc
  queued_lem (inr h) = cc

  leaving_lem : (result : Option SpawnError) → ¬ IsTurnedAway (leaving result)
  leaving_lem result (inl h) = cc
  leaving_lem result (inr h) = cc

  Step-IsTurnedAway :
      {s t : System} (i : ℕ) (st : Step e sp job s t)
      → s.machine.spawner.paused ≡ true
      → IsTurnedAway (s.pc i)
      → IsTurnedAway (t.pc i)
  Step-IsTurnedAway {s} i (move j) paused away =
      moved-IsTurnedAway s i j (advance e sp (job j) (s.pc j) s.machine).0 away (λ same.
        advance-IsTurnedAway (job j) (s.pc j) s.machine paused
          (subst (λ k. IsTurnedAway (s.pc k)) same away))
  Step-IsTurnedAway {s} i (lock j at_lock free) paused away =
      moved-IsTurnedAway s i j checking away (λ same.
        absurd
          (queued_lem (subst IsTurnedAway at_lock (subst (λ k. IsTurnedAway (s.pc k)) same away))))
  Step-IsTurnedAway {s} i (unlock j result at_end) paused away =
      moved-IsTurnedAway s i j (finished result) away (λ same. absurd (
        leaving_lem result
          (subst IsTurnedAway at_end (subst (λ k. IsTurnedAway (s.pc k)) same away))))
  Step-IsTurnedAway i (toggle p) paused away = away
  Step-IsTurnedAway i (recounts c) paused away = away
  Step-IsTurnedAway i (outside ev quiet) paused away = away

  -- From a state in which the process is paused, in every run in which nobody resumes, the process
  -- stays paused, and a call of Spawn that had not begun there has not begun or is over with the
  -- error of a paused process, whatever the other goroutines and the world do.
  pub Leads-IsTurnedAway :
      {s t : System} (l : Leads e sp job s t) (i : ℕ)
      → Unresumed l
      → s.machine.spawner.paused ≡ true
      → s.pc i ≡ ready
      → (t.machine.spawner.paused ≡ true) × IsTurnedAway (t.pc i)
  unfolding set_paused
  Leads-IsTurnedAway stay i unresumed paused at_door = (paused, inl at_door)
  Leads-IsTurnedAway (onward {t = u} l (move j)) i unresumed paused at_door =
      let before = Leads-IsTurnedAway l i unresumed paused at_door in
      (
        advance-paused (job j) (u.pc j) u.machine ∙ before.0,
        Step-IsTurnedAway {s = u} i (Step.move j) before.0 before.1,
      )
  Leads-IsTurnedAway (onward {t = u} l (lock j at_lock free)) i unresumed paused at_door =
      let before = Leads-IsTurnedAway l i unresumed paused at_door in
      (before.0, Step-IsTurnedAway {s = u} i (Step.lock j at_lock free) before.0 before.1)
  Leads-IsTurnedAway (onward {t = u} l (unlock j result at_end)) i unresumed paused at_door =
      let before = Leads-IsTurnedAway l i unresumed paused at_door in
      (before.0, Step-IsTurnedAway {s = u} i (Step.unlock j result at_end) before.0 before.1)
  Leads-IsTurnedAway (onward l (toggle p)) i unresumed paused at_door =
      (unresumed.0, (Leads-IsTurnedAway l i unresumed.1 paused at_door).1)
  Leads-IsTurnedAway (onward l (recounts c)) i unresumed paused at_door =
      Leads-IsTurnedAway l i unresumed paused at_door
  Leads-IsTurnedAway (onward l (outside ev quiet)) i unresumed paused at_door =
      Leads-IsTurnedAway l i unresumed paused at_door
