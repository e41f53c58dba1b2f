-- ===== src/Tests/Reconciler.antt =====
-- Runs of internal/reconciler, and its theorems at a small GitHub.
use Prim.Native.Nat.{min}
use autoscaler.Common.{
  Bool, List, [], arith, none, pos, pos_part, refl, some, ℤ, ◌+◌, ◌∷◌, ◌≡◌, ◌≤◌,
}
use autoscaler.Config.{RepoConfig}
use autoscaler.Env.{Env, QueuedJob}
use autoscaler.Reconciler.{
  api_get, count_queued_matching_jobs, count_runs, is_wanted, list_queued_run_ids,
  list_run_ids_by_status, list_run_jobs, reconcile_repo,
}
use autoscaler.Reconciler.Budget.{available, reconcile_repo_error, started-reconcile_repo}
use autoscaler.Reconciler.Counting.{count_runs-min, total_matches}
use autoscaler.Spawner.{count_lines, count_running, count_running_or_zero, inspect_args, ps_args}
use autoscaler.Spawner.Runs.{Quiet, started}
use autoscaler.Tests.World.{backend, deps, fresh, page, world}
use autoscaler.Text.{Bytes, codes, fields, split, trim_space}
use autoscaler.World.{Fallible, Machine, ok}

-- A GitHub with one run, whose two jobs wait for a runner.
abbrev job : Bytes → QueuedJob
job status = record { status = status; labels = codes "mac" ∷ [] }

abbrev jobs : List QueuedJob
jobs = job (codes "queued") ∷ job (codes "in_progress") ∷ job (codes "queued") ∷ []

abbrev busy_world : Env
busy_world = record world { run_page = λ b. (pos 7 ∷ [], none); queued_page = λ b. (jobs, none) }

abbrev hub : Bytes
hub = codes "https://api.github.com"

abbrev wanted : QueuedJob → Bool
wanted = is_wanted (λ s. s) (codes "mac" ∷ [])

abbrev listed : ℤ → Fallible (List QueuedJob)
listed id = ok jobs

always_listed :
    (id : ℤ) (m : Machine) → (list_run_jobs busy_world deps hub backend id m).0 ≡ listed id
unfolding list_run_jobs api_get
always_listed id m = refl

count_runs-min_example :
    (count_runs busy_world deps hub backend wanted (pos 3) (pos 7 ∷ pos 8 ∷ []) 0 fresh).0
    ≡ min 3 (0 + total_matches busy_world deps hub backend wanted listed (pos 7 ∷ pos 8 ∷ []))
count_runs-min_example =
    count_runs-min busy_world deps hub backend wanted listed always_listed 3 (pos 7 ∷ pos 8 ∷ []) 0
      fresh (omega arith)

started-reconcile_repo_example :
    started (reconcile_repo busy_world deps hub backend fresh).1.trace
    ≤ 0 + pos_part (available busy_world deps hub backend fresh)
started-reconcile_repo_example = started-reconcile_repo busy_world deps hub backend fresh

-- A GitHub that answers 403.
abbrev closed_world : Env
closed_world = record world { do_http = λ t req. ok (page 403) }

refused : (x : Bytes) × ((reconcile_repo closed_world deps hub backend fresh).0 ≡ some x)
unfolding reconcile_repo count_running_or_zero count_running ps_args inspect_args fields trim_space
    split count_lines count_queued_matching_jobs list_queued_run_ids list_run_ids_by_status api_get
refused = (_, refl)

reconcile_repo_error_example : Quiet fresh (reconcile_repo closed_world deps hub backend fresh).1
reconcile_repo_error_example = reconcile_repo_error closed_world deps hub backend fresh refused.1

abbrev two_repos : List RepoConfig
two_repos = backend ∷ record backend { name = codes "c/d" } ∷ []
