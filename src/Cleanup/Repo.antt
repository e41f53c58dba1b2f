-- ===== src/Cleanup/Repo.antt =====
-- What one pass over a repository counts, and which runners it deletes.
use autoscaler.Cleanup.{
  GhostRunner, cancel_runs, cleaner_get, delete_ghosts, delete_runner, force_cancel_run, insert_id,
  is_stuck_job, list_ghost_runners, repo_url_of, run_ids_for_ghosts, runner_url, stuck_runs,
  update_cleaner,
}
use autoscaler.Common.{
  List, [], any, arith, if◌then◌else◌, inl, inr, length, map, ℕ, ℤ, ◌%◌, ◌++◌, ◌+◌, ◌<◌, ◌^◌, ◌∷◌,
  ◌≡◌,
}
use autoscaler.Config.{RepoConfig}
use autoscaler.Env.{Env}
use autoscaler.Text.{Bytes, codes, decimal}
use autoscaler.World.{
  Fallible, Fallible-cases, Machine, Spawner, Trace, delete, err, get, http_do, increment, ok, post,
}

-- A uint64 counter that was moved by k.
abbrev pub Moved : ℕ → ℕ → ℕ → Type 0
Moved k before after = after ≡ (before + k) % 2 ^ 64

-- The URLs of the DELETE requests of a history, the latest first.
abbrev pub deleted_urls : Trace → List Bytes
deleted_urls [] = []
deleted_urls (http_do req a ∷ t) = elim req.method [
  | delete ↦ req.url ∷ deleted_urls t
  | get ↦ deleted_urls t
  | post ↦ deleted_urls t
]
deleted_urls (ev ∷ t) = deleted_urls t

-- A piece that changes no counter and deletes nothing.
abbrev pub Reads : Machine → Machine → Type 0
Reads m m' =
    (m'.cleaner ≡ m.cleaner)
    × (m'.spawner ≡ m.spawner)
    × (deleted_urls m'.trace ≡ deleted_urls m.trace)

-- The ghosts that a listing shows.
abbrev pub shown : Fallible (List GhostRunner) → List GhostRunner
shown (err x) = []
shown (ok gs) = gs

module _ (e : Env) (sp : Spawner) where
  pub cleaner_get-Reads : (url : Bytes) (m : Machine) → Reads m (cleaner_get e sp url m).1
  unfolding cleaner_get
  cleaner_get-Reads url m = ground arith

  pub list_ghost_runners-Reads :
      (repo : RepoConfig) (m : Machine) → Reads m (list_ghost_runners e sp repo m).1
  unfolding list_ghost_runners
  list_ghost_runners-Reads repo m =
      ground
        (arith, cleaner_get-Reads (repo_url_of e sp repo (codes "/actions/runners?per_page=100")) m)

  stuck_runs-Reads :
      (repo : RepoConfig) (names : List Bytes) (ids stuck : List ℤ) (m : Machine)
      → Reads m (stuck_runs e sp repo names ids stuck m).1
  unfolding stuck_runs
  stuck_runs-Reads repo names [] stuck m = ground arith
  stuck_runs-Reads repo names (id ∷ ids) stuck m =
      let url =
        repo_url_of e sp repo
          (codes "/actions/runs/" ++ (decimal id ++ codes "/jobs?per_page=100")) in
      let body = cleaner_get e sp url m in
      elim (Fallible-cases body.0) [
        | inl (b, answered) ↦ ground (
          arith,
          answered,
          cleaner_get-Reads url m,
          stuck_runs-Reads repo names ids
              (if any (is_stuck_job names) (e.running_page b).0 then insert_id id stuck else stuck)
              body.1,
        )
        | inr (x, failed) ↦
            ground
              (arith, failed, cleaner_get-Reads url m, stuck_runs-Reads repo names ids stuck body.1)
      ]

  pub run_ids-Reads :
      (repo : RepoConfig) (gs : List GhostRunner) (m : Machine)
      → Reads m (run_ids_for_ghosts e sp repo gs m).1
  unfolding run_ids_for_ghosts
  run_ids-Reads repo gs m =
      let url = repo_url_of e sp repo (codes "/actions/runs?status=in_progress&per_page=100") in
      let body = cleaner_get e sp url m in
      elim (Fallible-cases body.0) [
        | inl (b, answered) ↦ ground (
          arith,
          answered,
          cleaner_get-Reads url m,
          stuck_runs-Reads repo (map (λ g. g.name) gs) (e.run_page b).0 [] body.1,
        )
        | inr (x, failed) ↦ ground (arith, failed, cleaner_get-Reads url m)
      ]

  force_cancel_run_lem :
      (repo : RepoConfig) (id : ℤ) (m : Machine) → Reads m (force_cancel_run e sp repo id m).1
  unfolding force_cancel_run
  force_cancel_run_lem repo id m = ground arith

  -- The pass that cancels runs moves the counter of cancelled runs by its result, and nothing else.
  pub cancel_runs_lem :
      (repo : RepoConfig) (ids : List ℤ) (m : Machine)
      → m.cleaner.runs_cancelled < 2 ^ 64
      → let r = cancel_runs e sp repo ids m in
        Moved r.0 m.cleaner.runs_cancelled r.1.cleaner.runs_cancelled
        × (r.1.cleaner.ghosts_deleted ≡ m.cleaner.ghosts_deleted)
        × (r.1.cleaner.local_ghosts_reaped ≡ m.cleaner.local_ghosts_reaped)
        × (deleted_urls r.1.trace ≡ deleted_urls m.trace)
  unfolding cancel_runs
  cancel_runs_lem repo [] m h = ground arith
  cancel_runs_lem repo (id ∷ ids) m h =
      let done = force_cancel_run e sp repo id m in
      let counted =
        (update_cleaner (λ c. record c { runs_cancelled = increment c.runs_cancelled }) done.1).1 in
      ground (
        arith,
        force_cancel_run_lem repo id m,
        cancel_runs_lem repo ids done.1,
        cancel_runs_lem repo ids counted,
      )

  delete_runner_lem :
      (repo : RepoConfig) (id : ℤ) (m : Machine)
      → let r = delete_runner e sp repo id m in
        (r.1.cleaner ≡ m.cleaner)
        × (deleted_urls r.1.trace ≡ runner_url e sp repo id ∷ deleted_urls m.trace)
  unfolding delete_runner
  delete_runner_lem repo id m = ground arith

  -- The URLs of the DELETE requests for these runners, the last one first, after older ones.
  abbrev pub deletions : RepoConfig → List GhostRunner → List Bytes → List Bytes
  deletions repo [] before = before
  deletions repo (g ∷ gs) before = deletions repo gs (runner_url e sp repo g.id ∷ before)

  -- The pass that deletes asks for every runner once, in order, and moves the counter of deleted
  -- runners by what it deleted.
  pub delete_ghosts_lem :
      (repo : RepoConfig) (gs : List GhostRunner) (m : Machine)
      → m.cleaner.ghosts_deleted < 2 ^ 64
      → let r = delete_ghosts e sp repo gs m in
        (length gs ≡ r.0.0 + r.0.1)
        × Moved r.0.0 m.cleaner.ghosts_deleted r.1.cleaner.ghosts_deleted
        × (r.1.cleaner.runs_cancelled ≡ m.cleaner.runs_cancelled)
        × (r.1.cleaner.local_ghosts_reaped ≡ m.cleaner.local_ghosts_reaped)
        × (deleted_urls r.1.trace ≡ deletions repo gs (deleted_urls m.trace))
  unfolding delete_ghosts
  delete_ghosts_lem repo [] m h = ground arith
  delete_ghosts_lem repo (g ∷ gs) m h =
      let done = delete_runner e sp repo g.id m in
      let counted =
        (update_cleaner (λ c. record c { ghosts_deleted = increment c.ghosts_deleted }) done.1).1 in
      ground (
        arith,
        delete_runner_lem repo g.id m,
        delete_ghosts_lem repo gs done.1,
        delete_ghosts_lem repo gs counted,
      )
