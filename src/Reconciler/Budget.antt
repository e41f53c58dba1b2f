-- ===== src/Reconciler/Budget.antt =====
-- How many runners one reconcile starts at most, and what it does when GitHub cannot be read.
use autoscaler.Common.{
  Bool, List, [], arith, inl, inr, map, pos, pos_part, some, suc, zero, ℕ, ℤ, ◌++◌, ◌+◌, ◌-ℤ◌, ◌∷◌,
  ◌≡◌, ◌≤◌,
}
use autoscaler.Config.{RepoConfig}
use autoscaler.Env.{Env, QueuedJob}
use autoscaler.Reconciler.{
  api_get, count_jobs, count_queued_matching_jobs, count_runs, is_wanted, list_queued_run_ids,
  list_run_ids_by_status, list_run_jobs, reconcile_repo, spawn_times, to_spawn,
}
use autoscaler.Spawner.{count_running_or_zero, inc_reconcile, spawn}
use autoscaler.Spawner.Runs.{Quiet, count_running-Quiet, started, started-spawn_le}
use autoscaler.Text.{Bytes, codes, decimal, to_lower}
use autoscaler.World.{Fallible-cases, Machine, Spawner}

module _ (e : Env) (sp : Spawner) (base : Bytes) where
  api_get-Quiet : (url : Bytes) (m : Machine) → Quiet m (api_get e sp base url m).1
  unfolding api_get
  api_get-Quiet url m = ground arith

  list_run_ids-Quiet :
      (repo : RepoConfig) (status : Bytes) (m : Machine)
      → Quiet m (list_run_ids_by_status e sp base repo status m).1
  unfolding list_run_ids_by_status
  list_run_ids-Quiet repo status m = ground (
    arith,
    api_get-Quiet
        (base
          ++ (codes "/repos/"
              ++ (repo.name
                  ++ (codes "/actions/runs?status=" ++ (status ++ codes "&per_page=100")))))
        m,
  )

  list_queued-Quiet :
      (repo : RepoConfig) (m : Machine) → Quiet m (list_queued_run_ids e sp base repo m).1
  unfolding list_queued_run_ids
  list_queued-Quiet repo m =
      let first = (list_run_ids_by_status e sp base repo (codes "queued") m).1 in
      ground (
        arith,
        list_run_ids-Quiet repo (codes "queued") m,
        list_run_ids-Quiet repo (codes "in_progress") first,
      )

  list_run_jobs-Quiet :
      (repo : RepoConfig) (id : ℤ) (m : Machine) → Quiet m (list_run_jobs e sp base repo id m).1
  unfolding list_run_jobs
  list_run_jobs-Quiet repo id m = ground (
    arith,
    api_get-Quiet
        (base
          ++ (codes "/repos/"
              ++ (repo.name
                  ++ (codes "/actions/runs/" ++ (decimal id ++ codes "/jobs?per_page=100")))))
        m,
  )

  count_runs-Quiet :
      (repo : RepoConfig) (wanted : QueuedJob → Bool) (cap : ℤ) (ids : List ℤ) (n : ℕ) (m : Machine)
      → Quiet m (count_runs e sp base repo wanted cap ids n m).1
  unfolding count_runs
  count_runs-Quiet repo wanted cap [] n m = ground arith
  count_runs-Quiet repo wanted cap (id ∷ ids) n m =
      let listed = list_run_jobs e sp base repo id m in
      elim (Fallible-cases listed.0) [
        | inl (js, answered) ↦ ground (
          arith,
          answered,
          list_run_jobs-Quiet repo id m,
          count_runs-Quiet repo wanted cap ids (count_jobs wanted cap js n).0 listed.1,
        )
        | inr (x, failed) ↦ ground (
          arith,
          failed,
          list_run_jobs-Quiet repo id m,
          count_runs-Quiet repo wanted cap ids n listed.1,
        )
      ]

  count_queued-Quiet :
      (repo : RepoConfig) (cap : ℤ) (m : Machine)
      → Quiet m (count_queued_matching_jobs e sp base repo cap m).1
  unfolding count_queued_matching_jobs
  count_queued-Quiet repo cap m =
      let listed = list_queued_run_ids e sp base repo m in
      let wanted = is_wanted e.unicode_lower (map (to_lower e.unicode_lower) repo.match_labels) in
      elim (Fallible-cases listed.0) [
        | inl (ids, answered) ↦ ground (
          arith,
          answered,
          list_queued-Quiet repo m,
          count_runs-Quiet repo wanted cap ids 0 listed.1,
        )
        | inr (x, failed) ↦ ground (arith, failed, list_queued-Quiet repo m)
      ]

  started-spawn_times :
      (repo : RepoConfig) (n : ℕ) (m : Machine)
      → started (spawn_times e sp base repo n m).1.trace ≤ started m.trace + n
  unfolding spawn_times inc_reconcile
  started-spawn_times repo zero m = omega arith
  started-spawn_times repo (suc n) m =
      let r = spawn e sp repo m in
      ground (arith, started-spawn_le e sp repo m, started-spawn_times repo n (inc_reconcile r.1).1)

  -- The capacity that the reconcile of a repository sees.
  abbrev pub available : RepoConfig → Machine → ℤ
  available repo m = repo.max_concurrency -ℤ pos (count_running_or_zero e sp repo.name m).0

  count_or_zero-Quiet : (repo : Bytes) (m : Machine) → Quiet m (count_running_or_zero e sp repo m).1
  unfolding count_running_or_zero
  count_or_zero-Quiet repo m = ground (arith, count_running-Quiet e sp repo m)

  -- One reconcile of a repository starts at most as many containers as it saw free, and none where
  -- it saw no capacity.
  pub started-reconcile_repo :
      (repo : RepoConfig) (m : Machine)
      → started (reconcile_repo e sp base repo m).1.trace
        ≤ started m.trace + pos_part (available repo m)
  unfolding reconcile_repo
  started-reconcile_repo repo m =
      let running = count_running_or_zero e sp repo.name m in
      let counted = count_queued_matching_jobs e sp base repo (available repo m) running.1 in
      elim (Fallible-cases counted.0) [
        | inl (matched, answered) ↦ ground (
          arith,
          answered,
          count_or_zero-Quiet repo.name m,
          count_queued-Quiet repo (available repo m) running.1,
          started-spawn_times repo (to_spawn matched (available repo m)) counted.1,
        )
        | inr (x, failed) ↦ ground (
          arith,
          failed,
          count_or_zero-Quiet repo.name m,
          count_queued-Quiet repo (available repo m) running.1,
        )
      ]

  -- A reconcile that returns an error has started nothing, and left the spawner as it was.
  pub reconcile_repo_error :
      (repo : RepoConfig) (m : Machine) {x : Bytes}
      → (reconcile_repo e sp base repo m).0 ≡ some x
      → Quiet m (reconcile_repo e sp base repo m).1
  unfolding reconcile_repo
  reconcile_repo_error repo m h =
      let running = count_running_or_zero e sp repo.name m in
      ground (
        arith,
        count_or_zero-Quiet repo.name m,
        count_queued-Quiet repo (available repo m) running.1,
      )
