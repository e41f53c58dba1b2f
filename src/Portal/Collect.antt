-- ===== src/Portal/Collect.antt =====
-- internal/portal/portal.go: the report of /api/state. A request whose URL cannot be built is `nil`,
-- and setting a header on it panics: the handler then ends without an answer, which is `err` here.
use autoscaler.Cleanup.{last_summary_of}
use autoscaler.Common.{
  Bool, List, [], false, if◌then◌else◌, none, pos, some, ℕ, ℤ, ◌++◌, ◌-ℤ◌, ◌==◌, ◌∷◌,
}
use autoscaler.Config.{RepoConfig}
use autoscaler.Env.{Env, exec_docker, send}
use autoscaler.Spawner.{
  Stats, count_running_or_zero, is_paused, managed_label, repo_label_key, repo_runner_counts,
  stats_of,
}
use autoscaler.Text.{Bytes, codes, is_empty, split, split_n, trim_space}
use autoscaler.World.{Fallible, M, Request, Spawner, Summary, err, get, ok, pure, ◌>>=◌}

pub record RepoState : Type 0 where
  pub name : Bytes
  pub cap : ℤ
  pub queued : ℤ
  pub in_progress : ℤ
  pub online : ℕ
  pub busy : ℕ
  pub idle : ℤ
  pub ghosts : ℕ
  pub running_ephemerals : ℕ

pub record ContainerState : Type 0 where
  pub name : Bytes
  pub repo : Bytes
  pub busy : Bool

pub record State : Type 0 where
  pub stats : Stats
  pub cleanup : Summary
  pub repos : List RepoState
  pub containers : List ContainerState
  pub paused : Bool

-- One line of `docker ps`: the name, and the repository behind a tab.
abbrev pub container_of : List Bytes → ContainerState
container_of [] = record { name = []; repo = []; busy = false }
container_of (a ∷ []) = record { name = a; repo = []; busy = false }
container_of (a ∷ b ∷ rest) = record { name = a; repo = b; busy = false }

unfoldable pub container_states : List Bytes → List ContainerState
container_states [] = []
container_states (line ∷ lines) =
    let rest = container_states lines in
    if is_empty line then rest else container_of (split_n line b'\t' 1) ∷ rest

abbrev pub live_args : List Bytes
live_args =
    codes "ps"
    ∷ codes "--filter"
    ∷ (codes "label=" ++ managed_label)
    ∷ codes "--format"
    ∷ (codes "{{.Names}}\t{{.Label \"" ++ (repo_label_key ++ codes "\"}}"))
    ∷ []

abbrev pub run_count_url : Spawner → Bytes → Bytes → Bytes
run_count_url sp name status =
    sp.api_base
    ++ (codes "/repos/"
        ++ (name ++ (codes "/actions/runs?status=" ++ (status ++ codes "&per_page=1"))))

abbrev pub run_count_request : Spawner → Bytes → Request
run_count_request sp url = record {
  method = get;
  url = url;
  headers =
      (codes "Authorization", codes "Bearer " ++ sp.pat)
      ∷ (codes "Accept", codes "application/vnd.github+json")
      ∷ [];
}

module _ (e : Env) (sp : Spawner) where
  unfoldable pub query_run_count : Bytes → Bytes → M (Fallible ℤ)
  query_run_count name status =
      let url = run_count_url sp name status in
      elim (e.url_error url) [
        | some x ↦ pure (err (codes "nil pointer dereference"))
        | none ↦ do
          a ← send e (run_count_request sp url)
          pure (elim a [
            | err x ↦ ok (pos 0)
            | ok resp ↦ if resp.status == 200 then ok (e.total_page resp.body) else ok (pos 0)
          ])
      ]

  unfoldable pub collect_repo_state : RepoConfig → M (Fallible RepoState)
  collect_repo_state repo = do
    running ← count_running_or_zero e sp repo.name
    waiting ← query_run_count repo.name (codes "queued")
    elim waiting [
      | err x ↦ pure (err x)
      | ok queued ↦ do
        begun ← query_run_count repo.name (codes "in_progress")
        elim begun [
          | err x ↦ pure (err x)
          | ok in_progress ↦ do
            n ← repo_runner_counts e sp repo
            pure (
                ok (record {
                  name = repo.name;
                  cap = repo.max_concurrency;
                  queued = queued;
                  in_progress = in_progress;
                  online = n.online;
                  busy = n.busy;
                  idle = pos n.online -ℤ pos n.busy;
                  ghosts = n.ghost;
                  running_ephemerals = running;
                }))
        ]
    ]

  unfoldable pub collect_repos : List RepoConfig → M (Fallible (List RepoState))
  collect_repos [] = pure (ok [])
  collect_repos (repo ∷ repos) = do
    first ← collect_repo_state repo
    elim first [
      | err x ↦ pure (err x)
      | ok rs ↦ do
        more ← collect_repos repos
        pure (elim more [ err x ↦ err x | ok states ↦ ok (rs ∷ states) ])
    ]

  unfoldable pub list_live_ephemerals : M (List ContainerState)
  list_live_ephemerals = do
    listed ← exec_docker e live_args
    pure (elim listed.error [
      | some x ↦ []
      | none ↦ container_states (split (trim_space listed.stdout) b'\n')
    ])

  -- What `handleState` encodes.
  unfoldable pub collect_state : List RepoConfig → M (Fallible State)
  collect_state repos = do
    stats ← stats_of
    summary ← last_summary_of
    p ← is_paused
    collected ← collect_repos repos
    elim collected [
      | err x ↦ pure (err x)
      | ok states ↦ do
        containers ← list_live_ephemerals
        pure (
            ok (record {
              stats = stats;
              cleanup = summary;
              repos = states;
              containers = containers;
              paused = p;
            }))
    ]
