-- ===== src/Spawner/Liveness.antt =====
-- internal/spawner/spawner.go: whether goroutines in `Spawn` can hold each other up.
use autoscaler.Common.{
  Bool-cases, Option, ap, arith, false, inl, inr, refl, some, sym, true, ℕ, ◌∙◌, ◌≡◌, ◌≢◌, ◌≤◌, ◌⊎◌,
}
use autoscaler.Config.{RepoConfig}
use autoscaler.Env.{Env}
use autoscaler.Spawner.{SpawnError, paused_error}
use autoscaler.Spawner.Finishing.{give_back, moved_to}
use autoscaler.Spawner.Goroutine.{Pc, advance, checking, finished, queued, ready}
use autoscaler.Spawner.Interleaving.{Reach, System, lock, move, set_locked, set_pc}
use autoscaler.Spawner.Invariant.{set_pc_self}
use autoscaler.Spawner.Owners.{Owned, Reach-Owned, Step-Owned}
use autoscaler.Spawner.Paths.{
  Leads, Unaided, append, append-Unaided, onward, prepend, prepend-Unaided, stay, steps,
  steps-append, steps-prepend,
}
use autoscaler.Spawner.Progress.{rank}
use autoscaler.Spawner.Steps.{holds}
use autoscaler.World.{Machine, Spawner}

module _ (e : Env) (sp : Spawner) (job : ℕ → RepoConfig) where
  -- A goroutine that waits for a free mutex takes it, and ends.
  abbrev locked_by : System → ℕ → System
  locked_by s i = record s {
    pc = set_pc s.pc i checking;
    locked = set_locked s.locked (job i).name true;
  }

  abbrev Ends : System → ℕ → ℕ → Type 0
  Ends s i n =
      (last : System) × (path : Leads e sp job s last) × (steps e sp job path ≤ n)
      × Unaided e sp job path
      × (result : Option SpawnError) × (last.pc i ≡ finished result)

  free-Ends : (s : System) (i : ℕ) → s.pc i ≡ queued → s.locked (job i).name ≡ false → Ends s i 12
  free-Ends s i at_lock free =
      let at_check = set_pc_self s.pc i checking in
      let f =
        give_back e sp job 11 (locked_by s i) i (rw at_check (omega arith)) (rw at_check refl) in
      (
        f.last,
        prepend e sp job (lock i at_lock free) f.path,
        omega (
          arith,
          f.short,
          ap rank at_check,
          steps-prepend e sp job {s = s} (lock i at_lock free) f.path,
        ),
        prepend-Unaided e sp job {s = s} (lock i at_lock free) f.path tt f.alone,
        f.result,
        f.at_end,
      )

  holds-rank : (pc : Pc) → holds pc ≡ true → rank pc ≤ 11
  holds-rank ready h = cc
  holds-rank queued h = cc
  holds-rank (finished result) h = cc
  holds-rank _ h = omega arith

  -- A goroutine that waits for a mutex: its holder ends first.
  queued-Ends : (s : System) (i : ℕ) → Owned e sp job s → s.pc i ≡ queued → Ends s i 23
  queued-Ends s i o at_lock = elim (Bool-cases (s.locked (job i).name)) [
    | inr free ↦
        let (last, path, short, alone, result, at_end) = free-Ends s i at_lock free in
        (last, path, omega (arith, short), alone, result, at_end)
    | inl taken ↦
        let (j, h, named) = o (job i).name taken in
        let f = give_back e sp job 11 s j (holds-rank (s.pc j) h) h in
        let differs : j ≢ i = λ same. cc (h, ap (λ k. holds (s.pc k)) same, ap holds at_lock) in
        let (last, path, short, alone, result, at_end) =
          free-Ends f.last i (f.others i differs ∙ at_lock)
            (ap f.last.locked (sym named) ∙ f.freed) in
        (
          last,
          append e sp job f.path path,
          omega (arith, short, f.short, holds-rank (s.pc j) h, steps-append e sp job f.path path),
          append-Unaided e sp job f.path path f.alone alone,
          result,
          at_end,
        )
  ]

  ready_cases :
      (s : System) (i : ℕ)
      → s.pc i ≡ ready
      → ((result : Option SpawnError) × ((moved_to e sp job s i).pc i ≡ finished result))
        ⊎ ((moved_to e sp job s i).pc i ≡ queued)
  unfolding advance
  ready_cases s i at_start = elim (Bool-cases s.machine.spawner.paused) [
    | inl paused ↦ inl (some paused_error, ground arith)
    | inr open_now ↦ inr (ground arith)
  ]

  ready-Ends : (s : System) (i : ℕ) → Owned e sp job s → s.pc i ≡ ready → Ends s i 24
  ready-Ends s i o at_start = elim (ready_cases s i at_start) [
    | inl (result, at_end) ↦
        (moved_to e sp job s i, onward stay (move i), omega arith, (tt, tt), result, at_end)
    | inr at_lock ↦
        let (last, path, short, alone, result, at_end) =
          queued-Ends (moved_to e sp job s i) i (Step-Owned e sp job {s = s} (move i) o) at_lock in
        (
          last,
          prepend e sp job {s = s} (move i) path,
          omega (arith, short, steps-prepend e sp job {s = s} (move i) path),
          prepend-Unaided e sp job {s = s} (move i) path tt alone,
          result,
          at_end,
        )
  ]

  pc_cases :
      (pc : Pc)
      → (pc ≡ ready)
        ⊎ (pc ≡ queued)
        ⊎ (holds pc ≡ true)
        ⊎ ((result : Option SpawnError) × (pc ≡ finished result))
  pc_cases ready = inl refl
  pc_cases queued = inr (inl refl)
  pc_cases (finished result) = inr (inr (inr (result, refl)))
  pc_cases _ = inr (inr (inl refl))

  -- In every reachable state each call of Spawn can still end: some run of at most 24 steps, all
  -- of them of calls of Spawn, leads from there to the end of that call, whatever Docker, GitHub
  -- and the operating system answer. So no interleaving leads to a deadlock of the mutexes.
  pub can_finish :
      (m : Machine) {s : System} (i : ℕ)
      → Reach e sp job m s
      → (last : System) × (path : Leads e sp job s last) × (steps e sp job path ≤ 24)
        × Unaided e sp job path
        × (result : Option SpawnError) × (last.pc i ≡ finished result)
  can_finish m {s} i r = elim (pc_cases (s.pc i)) [
    | inl at_start ↦ ready-Ends s i (Reach-Owned e sp job m r) at_start
    | inr (inl at_lock) ↦
        let (last, path, short, alone, result, at_end) =
          queued-Ends s i (Reach-Owned e sp job m r) at_lock in
        (last, path, omega (arith, short), alone, result, at_end)
    | inr (inr (inl h)) ↦
        let f = give_back e sp job 11 s i (holds-rank (s.pc i) h) h in
        (f.last, f.path, omega (arith, f.short, holds-rank (s.pc i) h), f.alone, f.result, f.at_end)
    | inr (inr (inr (result, at_end))) ↦ (s, stay, omega arith, tt, result, at_end)
  ]
