-- ===== src/Process/Reconciling.antt =====
-- internal/reconciler/reconciler.go under an invariant of the process.
use autoscaler.Common.{
  All, Bool, List, [], arith, inl, inr, refl, suc, zero, ℕ, ℤ, ◌++◌, ◌∷◌, ◌≡◌, ◌⊎◌,
}
use autoscaler.Config.{RepoConfig}
use autoscaler.Env.{Env, QueuedJob}
use autoscaler.Process.Keeps.{
  Holds, Invariant, IsSource, Keeps, asks_state, jobs_at, lists_repo, repo_url, runs_at,
}
use autoscaler.Reconciler.{
  api_get, count_queued_matching_jobs, count_runs, list_queued_run_ids, list_run_ids_by_status,
  list_run_jobs, reconcile_repo, spawn_times, tick_filtered,
}
use autoscaler.Spawner.{
  count_running, count_running_or_zero, inc_reconcile, inspect_args, ps_args, signed_headers,
}
use autoscaler.Text.{Bytes, codes, decimal, fields, trim_space}
use autoscaler.World.{Machine, Spawner, docker, get}

module _ (e : Env) (sp : Spawner) (relay : Bytes) (Own : RepoConfig → Type 0) (P : Invariant)
    (k : Keeps e sp relay Own P) where
  pub count_running-Holds :
      (repo : RepoConfig) (m : Machine)
      → Own repo
      → Holds P m
      → Holds P (count_running e sp repo.name m).1
  unfolding count_running
  count_running-Holds repo m own h =
      let a = e.run_docker m.trace (ps_args repo.name) in
      let ids = fields (trim_space a.stdout) in
      let listed = docker (ps_args repo.name) a ∷ m.trace in
      let b = e.run_docker listed (inspect_args ids) in
      let one =
        k.commands (ps_args repo.name) a m.trace m.spawner m.cleaner (lists_repo repo own refl) h in
      let two =
        k.commands (inspect_args ids) b listed m.spawner m.cleaner (asks_state ids refl) one in
      ground (arith, one, two)

  pub count_or_zero-Holds :
      (repo : RepoConfig) (m : Machine)
      → Own repo
      → Holds P m
      → Holds P (count_running_or_zero e sp repo.name m).1
  unfolding count_running_or_zero
  count_or_zero-Holds repo m own h = grind (arith, count_running-Holds repo)

  api_get-Holds :
      (url : Bytes) (m : Machine)
      → IsSource sp Own url
      → Holds P m
      → Holds P (api_get e sp sp.api_base url m).1
  unfolding api_get
  api_get-Holds url m known h =
      let a = e.do_http m.trace (record { method = get; url = url; headers = signed_headers sp }) in
      ground (arith, k.fetches url (signed_headers sp) a m.trace m.spawner m.cleaner known h)

  run_ids-Holds :
      (repo : RepoConfig) (status : Bytes) (m : Machine)
      → Own repo
      → (status ≡ codes "queued") ⊎ (status ≡ codes "in_progress")
      → Holds P m
      → Holds P (list_run_ids_by_status e sp sp.api_base repo status m).1
  unfolding list_run_ids_by_status
  run_ids-Holds repo status m own is_status h =
      let url =
        repo_url sp repo.name
          (codes "/actions/runs?status=" ++ (status ++ codes "&per_page=100")) in
      ground (
        arith,
        api_get-Holds url m (runs_at repo status (codes "100") own is_status (inr refl) refl) h,
      )

  queued_ids-Holds :
      (repo : RepoConfig) (m : Machine)
      → Own repo
      → Holds P m
      → Holds P (list_queued_run_ids e sp sp.api_base repo m).1
  unfolding list_queued_run_ids
  queued_ids-Holds repo m own h = grind (
    arith,
    λ (n : Machine) (h : Holds P n). run_ids-Holds repo (codes "queued") n own (inl refl) h,
    λ (n : Machine) (h : Holds P n). run_ids-Holds repo (codes "in_progress") n own (inr refl) h,
  )

  run_jobs-Holds :
      (repo : RepoConfig) (id : ℤ) (m : Machine)
      → Own repo
      → Holds P m
      → Holds P (list_run_jobs e sp sp.api_base repo id m).1
  unfolding list_run_jobs
  run_jobs-Holds repo id m own h =
      let url =
        repo_url sp repo.name
          (codes "/actions/runs/" ++ (decimal id ++ codes "/jobs?per_page=100")) in
      ground (arith, api_get-Holds url m (jobs_at repo id own refl) h)

  count_runs-Holds :
      (repo : RepoConfig) (wanted : QueuedJob → Bool) (cap : ℤ) (ids : List ℤ) (n : ℕ) (m : Machine)
      → Own repo
      → Holds P m
      → Holds P (count_runs e sp sp.api_base repo wanted cap ids n m).1
  unfolding count_runs
  count_runs-Holds repo wanted cap [] n m own h = h
  count_runs-Holds repo wanted cap (id ∷ ids) n m own h =
      grind (arith, run_jobs-Holds repo, count_runs-Holds repo wanted cap ids)

  count_jobs-Holds :
      (repo : RepoConfig) (cap : ℤ) (m : Machine)
      → Own repo
      → Holds P m
      → Holds P (count_queued_matching_jobs e sp sp.api_base repo cap m).1
  unfolding count_queued_matching_jobs
  count_jobs-Holds repo cap m own h = grind (arith, queued_ids-Holds repo, count_runs-Holds repo)

  spawn_times-Holds :
      (repo : RepoConfig) (n : ℕ) (m : Machine)
      → Own repo
      → Holds P m
      → Holds P (spawn_times e sp sp.api_base repo n m).1
  unfolding spawn_times inc_reconcile
  spawn_times-Holds repo zero m own h = h
  spawn_times-Holds repo (suc n) m own h =
      grind (arith, k.spawns, k.reconciles, spawn_times-Holds repo n)

  reconcile_repo-Holds :
      (repo : RepoConfig) (m : Machine)
      → Own repo
      → Holds P m
      → Holds P (reconcile_repo e sp sp.api_base repo m).1
  unfolding reconcile_repo
  reconcile_repo-Holds repo m own h =
      grind (arith, count_or_zero-Holds repo, count_jobs-Holds repo, spawn_times-Holds repo)

  pub tick_filtered-Holds :
      (filter : Bytes) (repos : List RepoConfig) (m : Machine)
      → All Own repos
      → Holds P m
      → Holds P (tick_filtered e sp sp.api_base filter repos m).1
  unfolding tick_filtered
  tick_filtered-Holds filter [] m own h = h
  tick_filtered-Holds filter (repo ∷ repos) m (own, others) h =
      grind (arith, reconcile_repo-Holds repo, tick_filtered-Holds filter repos)
