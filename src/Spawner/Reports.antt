-- ===== src/Spawner/Reports.antt =====
-- internal/spawner/spawner.go: the constructors, and what the portal and /stats report.
use autoscaler.Common.{Bool, List, [], if◌then◌else◌, none, not, some, ℕ, ◌+◌, ◌==◌, ◌∷◌}
use autoscaler.Config.{RepoConfig}
use autoscaler.Env.{CountedRunner, Env, send}
use autoscaler.Spawner.Commands.{runners_url, signed_headers}
use autoscaler.Text.{Bytes, bytes_eq, codes, has_prefix, is_empty}
use autoscaler.World.{Fallible, M, Response, Spawner, err, get, ok, pure, ◌>>=◌}

abbrev pub default_api_base : Bytes
default_api_base = codes "https://api.github.com"

-- `NewWithDeps`: an empty base stands for GitHub's.
unfoldable pub new_with_deps : Bytes → Bytes → Bool → Bytes → Spawner
new_with_deps pat runner_image dry_run api_base = record {
  pat = pat;
  runner_image = runner_image;
  dry_run = dry_run;
  api_base = if is_empty api_base then default_api_base else api_base;
}

-- `New`.
abbrev pub new_spawner : Bytes → Bytes → Bool → Spawner
new_spawner pat runner_image dry_run = new_with_deps pat runner_image dry_run default_api_base

-- `Stats`; a Go map is the list of its assignments, the latest first.
pub record Stats : Type 0 where
  pub total_spawned : ℕ
  pub total_cap_hit : ℕ
  pub total_errors : ℕ
  pub total_idle_skip : ℕ
  pub total_reconcile : ℕ
  pub total_paused : ℕ
  pub paused : Bool
  pub running_by_repo : List (Bytes × ℕ)

unfoldable pub stats_of : M Stats
stats_of m = (
  record {
    total_spawned = m.spawner.total_spawned;
    total_cap_hit = m.spawner.total_cap_hit;
    total_errors = m.spawner.total_errors;
    total_idle_skip = m.spawner.total_idle_skip;
    total_reconcile = m.spawner.total_reconcile;
    total_paused = m.spawner.total_paused;
    paused = m.spawner.paused;
    running_by_repo = [];
  },
  m,
)

-- The named results of `RepoRunnerCounts`.
pub record RunnerCounts : Type 0 where
  pub online : ℕ
  pub busy : ℕ
  pub ghost : ℕ

abbrev pub no_counts : RunnerCounts
no_counts = record { online = 0; busy = 0; ghost = 0 }

-- One round of the loop over the page.
unfoldable pub count_runner : RunnerCounts → CountedRunner → RunnerCounts
count_runner n r =
    if not (has_prefix r.name (codes "auto-"))
    then n
    else if bytes_eq r.status (codes "online")
    then record n { online = n.online + 1; busy = if r.busy then n.busy + 1 else n.busy }
    else record n { ghost = n.ghost + 1 }

unfoldable pub count_runners : RunnerCounts → List CountedRunner → RunnerCounts
count_runners n [] = n
count_runners n (r ∷ rs) = count_runners (count_runner n r) rs

module _ (e : Env) (sp : Spawner) where
  -- What the page behind an answer counts; every failure counts nothing.
  unfoldable pub runner_counts_of : Fallible Response → RunnerCounts
  runner_counts_of (err x) = no_counts
  runner_counts_of (ok resp) =
      let page = e.count_page resp.body in
      if resp.status == 200
      then elim page.1 [ none ↦ count_runners no_counts page.0 | some x ↦ no_counts ]
      else no_counts

  unfoldable pub repo_runner_counts : RepoConfig → M RunnerCounts
  unfolding runner_counts_of signed_headers runners_url
  repo_runner_counts repo =
      let url = runners_url sp repo.name in
      elim (e.url_error url) [
        | some x ↦ pure no_counts
        | none ↦ do
          a ← send e (record { method = get; url = url; headers = signed_headers sp })
          pure (runner_counts_of a)
      ]
