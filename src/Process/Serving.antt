-- ===== src/Process/Serving.antt =====
-- internal/portal/portal.go and the server of cmd/autoscaler/main.go under an invariant of the
-- process.
use autoscaler.Cleanup.{last_summary_of}
use autoscaler.Common.{All, Bool-cases, List, Option, [], arith, inl, inr, refl, ℕ, ◌∷◌, ◌≡◌, ◌⊎◌}
use autoscaler.Config.{RepoConfig}
use autoscaler.Env.{Env}
use autoscaler.Main.{count_repos, handle_health, handle_stats, routes, serve}
use autoscaler.Portal.{
  Handler, PortalRequest, auth, collect_repo_state, collect_repos, collect_state, handle_cleanup,
  handle_index, handle_pause, handle_reconcile, handle_resume, handle_state, handle_stop,
  list_live_ephemerals, live_args, query_run_count, run_count_request, run_count_url, stop_args,
}
use autoscaler.Portal.Access.{auth_lem}
use autoscaler.Process.Keeps.{
  Holds, Invariant, IsCommand, IsSource, Keeps, lists_live, repo_url, runners_at, runs_at, stops,
}
use autoscaler.Process.Reaping.{tick_with_summary-Holds}
use autoscaler.Process.Reconciling.{count_or_zero-Holds, tick_filtered-Holds}
use autoscaler.Spawner.{
  count_running_or_zero, repo_runner_counts, runners_url, signed_headers, stats_of,
}
use autoscaler.Text.{Bytes, codes, has_prefix}
use autoscaler.World.{Machine, Spawner, get}

module _ (e : Env) (sp : Spawner) (relay : Bytes) (Own : RepoConfig → Type 0) (P : Invariant)
    (k : Keeps e sp relay Own P) where
  run_count-Holds :
      (repo : RepoConfig) (status : Bytes) (m : Machine)
      → Own repo
      → (status ≡ codes "queued") ⊎ (status ≡ codes "in_progress")
      → Holds P m
      → Holds P (query_run_count e sp repo.name status m).1
  unfolding query_run_count
  run_count-Holds repo status m own is_status h =
      let req = run_count_request sp (run_count_url sp repo.name status) in
      let a = e.do_http m.trace req in
      let known : IsSource sp Own req.url =
        runs_at repo status (codes "1") own is_status (inl refl) refl in
      ground (arith, k.fetches req.url req.headers a m.trace m.spawner m.cleaner known h)

  runner_counts-Holds :
      (repo : RepoConfig) (m : Machine)
      → Own repo
      → Holds P m
      → Holds P (repo_runner_counts e sp repo m).1
  unfolding repo_runner_counts runners_url
  runner_counts-Holds repo m own h =
      let url = repo_url sp repo.name (codes "/actions/runners?per_page=100") in
      let a = e.do_http m.trace (record { method = get; url = url; headers = signed_headers sp }) in
      let known : IsSource sp Own url = runners_at repo own refl in
      ground (arith, k.fetches url (signed_headers sp) a m.trace m.spawner m.cleaner known h)

  repo_state-Holds :
      (repo : RepoConfig) (m : Machine)
      → Own repo
      → Holds P m
      → Holds P (collect_repo_state e sp repo m).1
  unfolding collect_repo_state
  repo_state-Holds repo m own h =
      let running = (count_running_or_zero e sp repo.name m).1 in
      let waiting = (query_run_count e sp repo.name (codes "queued") running).1 in
      let begun = (query_run_count e sp repo.name (codes "in_progress") waiting).1 in
      let one = count_or_zero-Holds e sp relay Own P k repo m own h in
      let two = run_count-Holds repo (codes "queued") running own (inl refl) one in
      let three = run_count-Holds repo (codes "in_progress") waiting own (inr refl) two in
      ground (arith, two, three, runner_counts-Holds repo begun own three)

  collect_repos-Holds :
      (repos : List RepoConfig) (m : Machine)
      → All Own repos
      → Holds P m
      → Holds P (collect_repos e sp repos m).1
  unfolding collect_repos
  collect_repos-Holds [] m own h = h
  collect_repos-Holds (repo ∷ repos) m (own, others) h =
      grind (arith, repo_state-Holds repo, collect_repos-Holds repos)

  ephemerals-Holds : (m : Machine) → Holds P m → Holds P (list_live_ephemerals e sp m).1
  unfolding list_live_ephemerals
  ephemerals-Holds m h =
      let a = e.run_docker m.trace live_args in
      ground (arith, k.commands live_args a m.trace m.spawner m.cleaner (lists_live refl) h)

  collect_state-Holds :
      (repos : List RepoConfig) (m : Machine)
      → All Own repos
      → Holds P m
      → Holds P (collect_state e sp repos m).1
  unfolding collect_state stats_of last_summary_of
  collect_state-Holds repos m own h = grind (arith, collect_repos-Holds repos, ephemerals-Holds)

  count_repos-Holds :
      (repos : List RepoConfig) (counts : List (Bytes × ℕ)) (m : Machine)
      → All Own repos
      → Holds P m
      → Holds P (count_repos e sp repos counts m).1
  unfolding count_repos
  count_repos-Holds [] counts m own h = h
  count_repos-Holds (repo ∷ repos) counts m (own, others) h =
      grind (arith, count_or_zero-Holds e sp relay Own P k repo, count_repos-Holds repos)

  abbrev Safe : Handler → Type 0
  Safe handler = (r : PortalRequest) (m : Machine) → Holds P m → Holds P (handler r m).1

  stats-Safe : (repos : List RepoConfig) → All Own repos → Safe (handle_stats e sp repos)
  unfolding handle_stats stats_of
  stats-Safe repos own r m h = grind (arith, count_repos-Holds repos)

  index-Safe : Safe handle_index
  unfolding handle_index
  index-Safe r m h = grind arith

  state-Safe : (repos : List RepoConfig) → All Own repos → Safe (handle_state e sp repos)
  unfolding handle_state
  state-Safe repos own r m h = grind (arith, collect_state-Holds repos)

  reconcile-Safe :
      (repos : List RepoConfig) → All Own repos → Safe (handle_reconcile e sp sp.api_base repos)
  unfolding handle_reconcile
  reconcile-Safe repos own r m h =
      grind (arith, tick_filtered-Holds e sp relay Own P k r.repo repos)

  cleanup-Safe :
      (repos order : List RepoConfig)
      → All Own repos
      → All Own order
      → Safe (handle_cleanup e sp repos order)
  unfolding handle_cleanup
  cleanup-Safe repos order own own_order r m h =
      grind (arith, tick_with_summary-Holds e sp relay Own P k repos order)

  pause-Safe : Safe handle_pause
  unfolding handle_pause
  pause-Safe r m h = grind (arith, k.pauses)

  resume-Safe : Safe handle_resume
  unfolding handle_resume
  resume-Safe r m h = grind (arith, k.pauses)

  stop-Safe : Safe (handle_stop e)
  unfolding handle_stop
  stop-Safe r m h = elim (Bool-cases (has_prefix r.name (codes "auto-"))) [
    | inr foreign ↦ ground (arith, foreign)
    | inl own ↦
        let a = e.run_docker m.trace (stop_args r.name) in
        let known : IsCommand Own (stop_args r.name) = stops r.name own refl in
        ground (arith, own, k.commands (stop_args r.name) a m.trace m.spawner m.cleaner known h)
  ]

  auth-Safe : (token : Bytes) (handler : Handler) → Safe handler → Safe (auth token handler)
  auth-Safe token handler safe r m h = elim (auth_lem token handler r m) [
    | inl (may, same) ↦ rw same (safe r m h)
    | inr (stranger, same) ↦ rw same h
  ]

  serve-Safe :
      (choose : Bytes → Option Bytes) (table : List (Bytes × Handler))
      → All (λ entry. Safe entry.1) table
      → Safe (serve choose table)
  unfolding serve
  serve-Safe choose [] safe r m h = h
  serve-Safe choose ((pattern_of, handler) ∷ more) safe r m h =
      let here = safe.0 r m h in
      let there = serve-Safe choose more safe.1 r m h in ground (arith, here, there)

  pub routes-Safe :
      (choose : Bytes → Option Bytes) (token : Bytes) (repos order : List RepoConfig)
      → All Own repos
      → All Own order
      → Safe (serve choose (routes e sp sp.api_base token repos order))
  unfolding routes handle_health
  routes-Safe choose token repos order own own_order =
      let guarded = auth-Safe token in
      serve-Safe choose (routes e sp sp.api_base token repos order) (
        λ r m h. h,
        (
          stats-Safe repos own,
          (
            index-Safe,
            (
              guarded _ (state-Safe repos own),
              (
                guarded _ (reconcile-Safe repos own),
                (
                  guarded _ (cleanup-Safe repos order own own_order),
                  (guarded _ pause-Safe, (guarded _ resume-Safe, (guarded _ stop-Safe, tt))),
                ),
              ),
            ),
          ),
        ),
      )
