-- ===== src/Cleanup/Sweep/Halting.antt =====
-- internal/cleanup/cleanup.go: the end of a goroutine's steps.
use autoscaler.Cleanup.{
  GhostRunner, RepoResult, cleaner_get, delete_runner, force_cancel_run, insert_id, is_stuck_job,
  list_ghost_runners, no_result, repo_url_of,
}
use autoscaler.Cleanup.Sweep.Goroutine.{
  Pass, adding_cancelled, adding_deleted, cancelling, deleting, found_of, given_up, inspect_step,
  inspecting_runs, list_step, listing_ghosts, pass_step, reported, reporting, search_step,
  searching,
}
use autoscaler.Common.{
  Bool, Bool-cases, List, Option-cases, [], any, arith, false, if◌then◌else◌, inl, inr, map, refl,
  subst, suc, sym, true, ℤ, ◌++◌, ◌∷◌, ◌≡◌, ◌⊎◌,
}
use autoscaler.Config.{RepoConfig}
use autoscaler.Env.{Env}
use autoscaler.Text.{codes, decimal}
use autoscaler.World.{Fallible-cases, Machine, Spawner}

-- The goroutine has ended, or stands at the mutex of the summary, with its result.
abbrev pub is_through : Pass → Bool
is_through (reporting r) = true
is_through (reported r) = true
is_through (given_up x) = true
is_through p = false

module _ (e : Env) (sp : Spawner) (repo : RepoConfig) where
  -- Whatever the state of the world is at each of its steps, a goroutine takes finitely many.
  pub data Halts : Pass → Type 0 where
    through : {p : Pass} → is_through p ≡ true → Halts p
    steps_on : {p : Pass} → ((m : Machine) → Halts (pass_step e sp repo p m).0) → Halts p

  goes_to : {p q : Pass} → q ≡ p → Halts p → Halts q
  goes_to same h = subst Halts (sym same) h

  deleting-Halts : (gs : List GhostRunner) (r : RepoResult) → Halts (deleting gs r)
  unfolding pass_step
  deleting-Halts [] r = steps_on (λ m. through refl)
  deleting-Halts (g ∷ gs) r = steps_on {p = deleting (g ∷ gs) r} (λ m.
      elim (Bool-cases (delete_runner e sp repo g.id m).0) [
        | inl succeeded ↦
            goes_to {p = adding_deleted gs r} (ground (arith, succeeded))
              (steps_on (λ m'. deleting-Halts gs _))
        | inr refused_by ↦
            goes_to (ground (arith, refused_by))
              (deleting-Halts gs (record r { still_stuck = suc r.still_stuck }))
      ])

  cancelling-Halts :
      (gs : List GhostRunner) (ids : List ℤ) (r : RepoResult) → Halts (cancelling gs ids r)
  unfolding pass_step
  cancelling-Halts gs [] r = steps_on (λ m. deleting-Halts gs r)
  cancelling-Halts gs (id ∷ ids) r = steps_on {p = cancelling gs (id ∷ ids) r} (λ m.
      elim (Bool-cases (force_cancel_run e sp repo id m).0) [
        | inl succeeded ↦
            goes_to {p = adding_cancelled gs ids r} (ground (arith, succeeded))
              (steps_on (λ m'. cancelling-Halts gs ids _))
        | inr refused_by ↦ goes_to (ground (arith, refused_by)) (cancelling-Halts gs ids r)
      ])

  inspect_step_lem :
      (gs : List GhostRunner) (id : ℤ) (ids stuck : List ℤ) (m : Machine)
      → (stuck' : List ℤ) × ((inspect_step e sp repo gs id ids stuck m).0
          ≡ inspecting_runs gs ids stuck')
  unfolding inspect_step
  inspect_step_lem gs id ids stuck m =
      let url =
        repo_url_of e sp repo
          (codes "/actions/runs/" ++ (decimal id ++ codes "/jobs?per_page=100")) in
      elim (Fallible-cases (cleaner_get e sp url m).0) [
        | inl (b, answered) ↦ (
          if any (is_stuck_job (map (λ g. g.name) gs)) (e.running_page b).0
              then insert_id id stuck
              else stuck,
          ground (arith, answered),
        )
        | inr (x, lost) ↦ (stuck, ground (arith, lost))
      ]

  inspecting-Halts :
      (gs : List GhostRunner) (ids stuck : List ℤ) → Halts (inspecting_runs gs ids stuck)
  unfolding pass_step
  inspecting-Halts gs [] stuck = steps_on (λ m. cancelling-Halts gs _ _)
  inspecting-Halts gs (id ∷ ids) stuck = steps_on (λ m.
      let next_pass = inspect_step_lem gs id ids stuck m in
      goes_to next_pass.1 (inspecting-Halts gs ids next_pass.0))

  search_step_lem :
      (gs : List GhostRunner) (m : Machine)
      → ((search_step e sp repo gs m).0 ≡ deleting gs (found_of gs))
        ⊎ ((ids : List ℤ) × ((search_step e sp repo gs m).0 ≡ inspecting_runs gs ids []))
  unfolding search_step
  search_step_lem gs m =
      let body =
        cleaner_get e sp
          (repo_url_of e sp repo (codes "/actions/runs?status=in_progress&per_page=100")) m in
      elim (Fallible-cases body.0) [
        | inr (x, lost) ↦ inl (ground (arith, lost))
        | inl (b, answered) ↦ elim (Option-cases (e.run_page b).1) [
          | inr (x, broken) ↦ inl (ground (arith, answered, broken))
          | inl whole ↦ inr ((e.run_page b).0, ground (arith, answered, whole))
        ]
      ]

  searching-Halts : (gs : List GhostRunner) → Halts (searching gs)
  unfolding pass_step
  searching-Halts gs = steps_on (λ m. elim (search_step_lem gs m) [
    | inl skipped ↦ goes_to skipped (deleting-Halts gs _)
    | inr (ids, found_runs) ↦ goes_to found_runs (inspecting-Halts gs ids [])
  ])

  listing-Halts : Halts listing_ghosts
  unfolding pass_step list_step
  listing-Halts = steps_on {p = listing_ghosts} (λ m.
      elim (Fallible-cases (list_ghost_runners e sp repo m).0) [
        | inl ([], answered) ↦
            goes_to {p = reporting no_result} (ground (arith, answered)) (through refl)
        | inl (g ∷ gs, answered) ↦ goes_to (ground (arith, answered)) (searching-Halts (g ∷ gs))
        | inr (x, lost) ↦
            goes_to {p = given_up (codes "list ghosts: " ++ x)} (ground (arith, lost))
              (through refl)
      ])

  -- From wherever it stands, a goroutine of a tick comes after finitely many steps to its end or to
  -- the mutex of the summary, whatever is answered and whatever the other goroutines do to the
  -- world and the counters between its steps.
  pub Pass-Halts : (p : Pass) → Halts p
  unfolding pass_step
  Pass-Halts listing_ghosts = listing-Halts
  Pass-Halts (searching gs) = searching-Halts gs
  Pass-Halts (inspecting_runs gs ids stuck) = inspecting-Halts gs ids stuck
  Pass-Halts (cancelling gs ids r) = cancelling-Halts gs ids r
  Pass-Halts (adding_cancelled gs ids r) = steps_on (λ m. cancelling-Halts gs ids _)
  Pass-Halts (deleting gs r) = deleting-Halts gs r
  Pass-Halts (adding_deleted gs r) = steps_on (λ m. deleting-Halts gs _)
  Pass-Halts (reporting r) = through refl
  Pass-Halts (reported r) = through refl
  Pass-Halts (given_up x) = through refl
