-- ===== src/Spawner/Held.antt =====
-- internal/spawner/spawner.go: the env-files while goroutines interleave.
use autoscaler.Common.{
  Bool, Bool-cases, [], arith, false, inl, inr, not, refl, true, ℕ, ◌&&◌, ◌==◌, ◌||◌, ◌∷◌, ◌≡◌, ◌⊎◌,
}
use autoscaler.Config.{RepoConfig}
use autoscaler.Env.{Env}
use autoscaler.Spawner.{has_idle_matching_runner, set_paused}
use autoscaler.Spawner.Goroutine.{
  Pc, advance, check_idle, checking, closing, creating, discarding, failing, finished,
  inspect_containers, inspecting, judge, launching, leaving, list_containers, listing, moding,
  naming, queued, ready, removing, run_container, writing,
}
use autoscaler.Spawner.Interleaving.{
  Reach, System, here, lock, move, next, outside, recounts, set_locked, set_pc, toggle, unlock,
}
use autoscaler.Text.{Bytes, bytes_eq}
use autoscaler.World.{Event, Machine, Spawner, Trace, create_temp, ok, remove}

-- Whether a temporary file of that path was made, and `os.Remove` has not been called for it since.
abbrev pub present : Bytes → Trace → Bool
present p [] = false
present p (create_temp pattern (ok q) ∷ t) = bytes_eq q p || present p t
present p (remove q a ∷ t) = let there = present p t in not (bytes_eq q p) && there
present p (ev ∷ t) = present p t

-- Whether a goroutine is between the creation of the file and its removal.
abbrev pub owns : Pc → Bytes → Bool
owns (moding name path) p = bytes_eq path p
owns (writing name path) p = bytes_eq path p
owns (closing name path) p = bytes_eq path p
owns (discarding path x) p = bytes_eq path p
owns (failing path x) p = bytes_eq path p
owns (launching name env_file path) p = bytes_eq path p
owns (removing path result) p = bytes_eq path p
owns pc p = false

-- Every temporary file for which nobody has called `os.Remove` is held by a goroutine.
abbrev pub AllHeld : System → Type 0
AllHeld s = (p : Bytes) → present p s.machine.trace ≡ true → (i : ℕ) × (owns (s.pc i) p ≡ true)

abbrev pub makes_file : Event → Bool
makes_file (create_temp pattern a) = true
makes_file ev = false

quiet-present :
    (p : Bytes) (ev : Event) (t : Trace)
    → makes_file ev ≡ false
    → present p (ev ∷ t) ≡ true
    → present p t ≡ true
quiet-present p (create_temp pattern a) t quiet h = cc
quiet-present p (remove q a) t quiet h = ground (arith, h)
quiet-present p _ t quiet h = h

module _ (e : Env) (sp : Spawner) (job : ℕ → RepoConfig) where
  -- The other goroutines make no temporary files.
  abbrev pub Calm : {m : Machine} {s : System} → Reach e sp job m s → Type 0
  Calm here = Unit
  Calm (next r (outside ev quiet)) = (makes_file ev ≡ false) × Calm r
  Calm (next r st) = Calm r

  -- Of such files behind a step, the goroutine holds one, or it did not before.
  abbrev Passes : Pc → Machine → Pc → Machine → Type 0
  Passes pc m pc' m' =
      (p : Bytes)
      → present p m'.trace ≡ true
      → (owns pc' p ≡ true) ⊎ ((present p m.trace ≡ true) × (owns pc p ≡ false))

  check_idle-Passes :
      (repo : RepoConfig) (m : Machine)
      → let r = check_idle e sp repo m in Passes checking m r.0 r.1
  unfolding check_idle has_idle_matching_runner
  check_idle-Passes repo m p h = inr (ground arith, refl)

  advance-Passes :
      (repo : RepoConfig) (pc : Pc) (m : Machine)
      → let r = advance e sp repo pc m in Passes pc m r.0 r.1
  unfolding advance list_containers inspect_containers judge run_container
  advance-Passes repo checking m p h = check_idle-Passes repo m p h
  advance-Passes repo listing m p h = inr (ground arith, refl)
  advance-Passes repo (inspecting ids) m p h = inr (ground arith, refl)
  advance-Passes repo (launching name env_file path) m p h = ground arith
  advance-Passes repo naming m p h = inr (ground arith, refl)
  advance-Passes repo ready m p h = inr (ground arith, refl)
  advance-Passes repo (creating name) m p h = ground arith
  advance-Passes repo (moding name path) m p h = ground arith
  advance-Passes repo (writing name path) m p h = ground arith
  advance-Passes repo (closing name path) m p h = ground arith
  advance-Passes repo (discarding path x) m p h = ground arith
  advance-Passes repo (failing path x) m p h = ground arith
  advance-Passes repo (removing path result) m p h = ground arith
  advance-Passes repo queued m p h = inr (h, refl)
  advance-Passes repo (leaving result) m p h = inr (h, refl)
  advance-Passes repo (finished result) m p h = inr (h, refl)

  -- A goroutine that moves leaves the places of the others alone.
  moved-AllHeld :
      (s : System) (i : ℕ) (pc : Pc) (m : Machine) (locked : Bytes → Bool)
      → Passes (s.pc i) s.machine pc m
      → AllHeld s
      → AllHeld (record { machine = m; pc = set_pc s.pc i pc; locked = locked })
  moved-AllHeld s i pc m locked passed held p there = elim (passed p there) [
    | inl own ↦ (i, ground (arith, own))
    | inr (before, other) ↦
        let (j, own) = held p before in
        (
          j,
          elim (Bool-cases (i == j)) [
            | inl same ↦ ground (arith, own, other, same)
            | inr apart ↦ ground (arith, own, apart)
          ],
        )
  ]

  -- What each goroutine has made and not yet called `os.Remove` for, it holds.
  pub Reach-AllHeld :
      {m : Machine} {s : System} (r : Reach e sp job m s)
      → Calm r
      → ((p : Bytes) → present p m.trace ≡ false)
      → AllHeld s
  unfolding set_paused
  Reach-AllHeld here calm clean = λ p there. cc (there, clean p)
  Reach-AllHeld (next {s = u} r (move i)) calm clean =
      let a = advance e sp (job i) (u.pc i) u.machine in
      moved-AllHeld u i a.0 a.1 u.locked (advance-Passes (job i) (u.pc i) u.machine)
        (Reach-AllHeld r calm clean)
  Reach-AllHeld (next {s = u} r (lock i at_lock free)) calm clean =
      moved-AllHeld u i checking u.machine (set_locked u.locked (job i).name true)
        (λ p there. inr (there, rw at_lock refl)) (Reach-AllHeld r calm clean)
  Reach-AllHeld (next {s = u} r (unlock i result at_end)) calm clean =
      moved-AllHeld u i (finished result) u.machine (set_locked u.locked (job i).name false)
        (λ p there. inr (there, rw at_end refl)) (Reach-AllHeld r calm clean)
  Reach-AllHeld (next r (toggle b)) calm clean = Reach-AllHeld r calm clean
  Reach-AllHeld (next r (recounts c)) calm clean = Reach-AllHeld r calm clean
  Reach-AllHeld (next {s = u} r (outside ev quiet)) calm clean =
      λ p there. Reach-AllHeld r calm.1 clean p (quiet-present p ev u.machine.trace calm.0 there)
