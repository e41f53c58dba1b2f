-- ===== src/Cleanup/Sweep/Goroutine.antt =====
-- `cleanupRepo` of internal/cleanup/cleanup.go as a goroutine of a tick runs it: one request, or one
-- operation on a lifetime counter, at a time.
use autoscaler.Cleanup.{
  GhostRunner, RepoResult, cleaner_get, delete_runner, force_cancel_run, insert_id, is_stuck_job,
  list_ghost_runners, no_result, repo_url_of, update_cleaner,
}
use autoscaler.Common.{
  List, [], any, false, if◌then◌else◌, length, map, none, some, suc, true, ℤ, ◌++◌, ◌∷◌,
}
use autoscaler.Config.{RepoConfig}
use autoscaler.Env.{Env}
use autoscaler.Text.{Bytes, codes, decimal}
use autoscaler.World.{M, Spawner, err, increment, ok, pure, ◌>>=◌, ◌>>◌}

-- Where a goroutine stands, with the local variables that are live there.
pub data Pass : Type 0 where
  listing_ghosts : Pass  -- before the request of `listGhostRunners`
  searching : (ghosts : List GhostRunner) → Pass  -- before the first request of `runIDsForGhosts`
  inspecting_runs : (ghosts : List GhostRunner) (ids stuck : List ℤ) → Pass  -- its loop over the runs
  cancelling : (ghosts : List GhostRunner) (ids : List ℤ) (r : RepoResult) → Pass
  adding_cancelled : (ghosts : List GhostRunner) (ids : List ℤ) (r : RepoResult) → Pass
  deleting : (ghosts : List GhostRunner) (r : RepoResult) → Pass
  adding_deleted : (ghosts : List GhostRunner) (r : RepoResult) → Pass
  reporting : (r : RepoResult) → Pass  -- before `mu.Lock()` of the summary
  reported : (r : RepoResult) → Pass
  given_up : (x : Bytes) → Pass

abbrev pub found_of : List GhostRunner → RepoResult
found_of ghosts = record no_result { found = length ghosts }

module _ (e : Env) (sp : Spawner) (repo : RepoConfig) where
  unfoldable pub list_step : M Pass
  list_step = do
    listed ← list_ghost_runners e sp repo
    elim listed [
      | err x ↦ pure (given_up (codes "list ghosts: " ++ x))
      | ok [] ↦ pure (reporting no_result)
      | ok (g ∷ gs) ↦ pure (searching (g ∷ gs))
    ]

  -- A failure to list the runs skips the loop that cancels.
  unfoldable pub search_step : List GhostRunner → M Pass
  search_step ghosts = do
    body ←
        cleaner_get e sp
          (repo_url_of e sp repo (codes "/actions/runs?status=in_progress&per_page=100"))
    elim body [
      | err x ↦ pure (deleting ghosts (found_of ghosts))
      | ok b ↦ elim (e.run_page b).1 [
        | some x ↦ pure (deleting ghosts (found_of ghosts))
        | none ↦ pure (inspecting_runs ghosts (e.run_page b).0 [])
      ]
    ]

  unfoldable pub inspect_step : List GhostRunner → ℤ → List ℤ → List ℤ → M Pass
  inspect_step ghosts id ids stuck = do
    body ← cleaner_get e sp (
        repo_url_of e sp repo
          (codes "/actions/runs/" ++ (decimal id ++ codes "/jobs?per_page=100")))
    elim body [
      | err x ↦ pure (inspecting_runs ghosts ids stuck)
      | ok b ↦ pure (
          inspecting_runs ghosts ids (
            if any (is_stuck_job (map (λ g. g.name) ghosts)) (e.running_page b).0
            then insert_id id stuck
            else stuck))
    ]

  unfoldable pub pass_step : Pass → M Pass
  pass_step listing_ghosts = list_step
  pass_step (searching ghosts) = search_step ghosts
  pass_step (inspecting_runs ghosts [] stuck) =
      λ m. (cancelling ghosts (e.map_order m.trace stuck) (found_of ghosts), m)
  pass_step (inspecting_runs ghosts (id ∷ ids) stuck) = inspect_step ghosts id ids stuck
  pass_step (cancelling ghosts [] r) = pure (deleting ghosts r)
  pass_step (cancelling ghosts (id ∷ ids) r) = do
    succeeded ← force_cancel_run e sp repo id
    elim succeeded [
      | true ↦ pure (adding_cancelled ghosts ids r)
      | false ↦ pure (cancelling ghosts ids r)
    ]
  pass_step (adding_cancelled ghosts ids r) = do
    update_cleaner (λ c. record c { runs_cancelled = increment c.runs_cancelled })
    pure (cancelling ghosts ids (record r { cancelled = suc r.cancelled }))
  pass_step (deleting [] r) = pure (reporting r)
  pass_step (deleting (g ∷ gs) r) = do
    succeeded ← delete_runner e sp repo g.id
    elim succeeded [
      | true ↦ pure (adding_deleted gs r)
      | false ↦ pure (deleting gs (record r { still_stuck = suc r.still_stuck }))
    ]
  pass_step (adding_deleted gs r) = do
    update_cleaner (λ c. record c { ghosts_deleted = increment c.ghosts_deleted })
    pure (deleting gs (record r { deleted = suc r.deleted }))
  pass_step (reporting r) = pure (reporting r)
  pass_step (reported r) = pure (reported r)
  pass_step (given_up x) = pure (given_up x)
