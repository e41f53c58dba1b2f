-- ===== src/Cleanup/Sweep/Books.antt =====
-- internal/cleanup/cleanup.go: the lifetime counters and the summaries while the goroutines of the
-- ticks interleave.
use autoscaler.Cleanup.{
  GhostRunner, RepoResult, delete_runner, force_cancel_run, list_ghost_runners, repo_url_of,
}
use autoscaler.Cleanup.Sweep.Goroutine.{
  Pass, adding_cancelled, adding_deleted, cancelling, deleting, given_up, inspect_step,
  inspecting_runs, list_step, listing_ghosts, pass_step, reported, reporting, search_step,
  searching,
}
use autoscaler.Cleanup.Repo.{cleaner_get-Reads, list_ghost_runners-Reads}
use autoscaler.Common.{List, [], arith, inl, inr, length, suc, ℕ, ℤ, ◌++◌, ◌+◌, ◌∷◌, ◌≡◌, ◌⊎◌}
use autoscaler.Config.{RepoConfig}
use autoscaler.Env.{Env}
use autoscaler.Text.{codes, decimal}
use autoscaler.World.{Fallible-cases, Machine, Spawner, increment}

-- What a goroutine has added to the lifetime counters.
abbrev pub cancelled_by : Pass → ℕ
cancelled_by (cancelling ghosts ids r) = r.cancelled
cancelled_by (adding_cancelled ghosts ids r) = r.cancelled
cancelled_by (deleting ghosts r) = r.cancelled
cancelled_by (adding_deleted ghosts r) = r.cancelled
cancelled_by (reporting r) = r.cancelled
cancelled_by (reported r) = r.cancelled
cancelled_by p = 0

abbrev pub deleted_by : Pass → ℕ
deleted_by (cancelling ghosts ids r) = r.deleted
deleted_by (adding_cancelled ghosts ids r) = r.deleted
deleted_by (deleting ghosts r) = r.deleted
deleted_by (adding_deleted ghosts r) = r.deleted
deleted_by (reporting r) = r.deleted
deleted_by (reported r) = r.deleted
deleted_by p = 0

-- What a goroutine has added to the summary of its tick.
abbrev pub share : (RepoResult → ℕ) → Pass → ℕ
share field (reported r) = field r
share field p = 0

-- The ghosts found are those deleted, those still stuck and those that are left.
abbrev pub Sound : Pass → Type 0
Sound (cancelling gs ids r) = (r.found ≡ length gs) × (r.deleted ≡ 0) × (r.still_stuck ≡ 0)
Sound (adding_cancelled gs ids r) = (r.found ≡ length gs) × (r.deleted ≡ 0) × (r.still_stuck ≡ 0)
Sound (deleting gs r) = r.found ≡ r.deleted + r.still_stuck + length gs
Sound (adding_deleted gs r) = r.found ≡ suc r.deleted + r.still_stuck + length gs
Sound (reporting r) = r.found ≡ r.deleted + r.still_stuck
Sound (reported r) = r.found ≡ r.deleted + r.still_stuck
Sound p = Unit

-- A counter and what a goroutine has added to it move together.
abbrev Together : ℕ → ℕ → ℕ → ℕ → Type 0
Together before after own own' =
    ((after ≡ before) × (own' ≡ own)) ⊎ ((after ≡ increment before) × (own' ≡ suc own))

-- One step, as the counters and the summaries see it.
abbrev Kept : Pass → Machine → Pass × Machine → Type 0
Kept p m r =
    Together m.cleaner.ghosts_deleted r.1.cleaner.ghosts_deleted (deleted_by p) (deleted_by r.0)
    × Together m.cleaner.runs_cancelled r.1.cleaner.runs_cancelled (cancelled_by p)
        (cancelled_by r.0)
    × (Sound p → Sound r.0)
    × ((field : RepoResult → ℕ) → share field r.0 ≡ share field p)

module _ (e : Env) (sp : Spawner) (repo : RepoConfig) where
  list_step-Kept : (m : Machine) → Kept listing_ghosts m (list_step e sp repo m)
  unfolding list_step
  list_step-Kept m =
      let listed = list_ghost_runners e sp repo m in
      let reads = list_ghost_runners-Reads e sp repo m in
      elim (Fallible-cases listed.0) [
        | inl ([], answered) ↦ ground (arith, answered, reads)
        | inl (g ∷ gs, answered) ↦ ground (arith, answered, reads)
        | inr (x, lost) ↦ ground (arith, lost, reads)
      ]

  search_step-Kept :
      (gs : List GhostRunner) (m : Machine) → Kept (searching gs) m (search_step e sp repo gs m)
  unfolding search_step
  search_step-Kept gs m = ground (
    arith,
    cleaner_get-Reads e sp
        (repo_url_of e sp repo (codes "/actions/runs?status=in_progress&per_page=100")) m,
  )

  inspect_step-Kept :
      (gs : List GhostRunner) (id : ℤ) (ids stuck : List ℤ) (m : Machine)
      → Kept (inspecting_runs gs (id ∷ ids) stuck) m (inspect_step e sp repo gs id ids stuck m)
  unfolding inspect_step
  inspect_step-Kept gs id ids stuck m = ground (
    arith,
    cleaner_get-Reads e sp
        (repo_url_of e sp repo
          (codes "/actions/runs/" ++ (decimal id ++ codes "/jobs?per_page=100")))
        m,
  )

  pub pass_step-Kept : (p : Pass) (m : Machine) → Kept p m (pass_step e sp repo p m)
  unfolding pass_step force_cancel_run delete_runner
  pass_step-Kept listing_ghosts m = list_step-Kept m
  pass_step-Kept (searching gs) m = search_step-Kept gs m
  pass_step-Kept (inspecting_runs gs [] stuck) m = ground arith
  pass_step-Kept (inspecting_runs gs (id ∷ ids) stuck) m = inspect_step-Kept gs id ids stuck m
  pass_step-Kept (cancelling gs [] r) m = ground arith
  pass_step-Kept (cancelling gs (id ∷ ids) r) m = ground arith
  pass_step-Kept (adding_cancelled gs ids r) m = ground arith
  pass_step-Kept (deleting [] r) m = ground arith
  pass_step-Kept (deleting (g ∷ gs) r) m = ground arith
  pass_step-Kept (adding_deleted gs r) m = ground arith
  pass_step-Kept (reporting r) m = ground arith
  pass_step-Kept (reported r) m = ground arith
  pass_step-Kept (given_up x) m = ground arith
