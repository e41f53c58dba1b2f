-- ===== src/Portal/Report.antt =====
-- What /api/state says of a repository, against GitHub's listing of its runners.
use autoscaler.Common.{
  Bool, List, Option-cases, [], arith, if◌then◌else◌, inl, inr, keep, length, none, not, pos, refl,
  some, subst, sym, ℤ, ◌&&◌, ◌+◌, ◌-ℤ◌, ◌==◌, ◌∷◌, ◌≡◌, ◌≢◌, ◌⊎◌,
}
use autoscaler.Config.{RepoConfig}
use autoscaler.Env.{CountedRunner, Env}
use autoscaler.Portal.{
  RepoState, collect_repo_state, query_run_count, run_count_request, run_count_url,
}
use autoscaler.Spawner.{
  count_running, count_running_or_zero, repo_runner_counts, runner_counts_of, runners_url,
  signed_headers,
}
use autoscaler.Spawner.Runners.{Counts, count_runners-Counts, is_busy, is_online}
use autoscaler.Text.{Bytes, codes}
use autoscaler.World.{
  Fallible, Fallible-cases, Machine, Request, Response, Spawner, Trace, err, get, http_do, ok,
}

abbrev is_free : CountedRunner → Bool
is_free r = is_online r && not r.busy

idle_lem :
    (rs : List CountedRunner)
    → length (keep is_busy rs) + length (keep is_free rs) ≡ length (keep is_online rs)
idle_lem [] = omega arith
idle_lem (r ∷ rs) = ground (arith, idle_lem rs)

module _ (e : Env) (sp : Spawner) where
  -- The runners that an answer lists: none where the request failed.
  abbrev pub page_of : Fallible Response → List CountedRunner
  page_of (err x) = []
  page_of (ok resp) =
      if resp.status == 200
      then elim (e.count_page resp.body).1 [ none ↦ (e.count_page resp.body).0 | some x ↦ [] ]
      else []

  runner_counts_of-Counts : (a : Fallible Response) → Counts (runner_counts_of e sp a) (page_of a)
  unfolding runner_counts_of
  runner_counts_of-Counts (err x) = omega arith
  runner_counts_of-Counts (ok resp) =
      ground (arith, count_runners-Counts (e.count_page resp.body).0)

  abbrev listing : RepoConfig → Request
  listing repo = record {
    method = get;
    url = runners_url sp repo.name;
    headers = signed_headers sp;
  }

  -- The runners that GitHub listed for a repository by the last call of a history; none, where the
  -- URL of the listing cannot be built.
  abbrev pub Listed : RepoConfig → Trace → List CountedRunner → Type 0
  Listed repo t page =
      ((page ≡ []) × (e.url_error (runners_url sp repo.name) ≢ none))
      ⊎ ((before : Trace) × (a : Fallible Response) × (a ≡ e.do_http before (listing repo))
          × (t ≡ http_do (listing repo) a ∷ before)
          × (page ≡ page_of a))

  runner_counts_lem :
      (repo : RepoConfig) (m : Machine)
      → (page : List CountedRunner) × Listed repo (repo_runner_counts e sp repo m).1.trace page
        × Counts (repo_runner_counts e sp repo m).0 page
  unfolding repo_runner_counts
  runner_counts_lem repo m = elim (Option-cases (e.url_error (runners_url sp repo.name))) [
    | inr (x, failed) ↦ ([], inl (refl, λ fine. cc), ground (arith, failed))
    | inl fine ↦ (
      page_of (e.do_http m.trace (listing repo)),
      inr (m.trace, e.do_http m.trace (listing repo), refl, ground (arith, fine), refl),
      ground (arith, fine, runner_counts_of-Counts (e.do_http m.trace (listing repo))),
    )
  ]

  -- The numbers of a repository are those of one listing, and idle is the number of its runners
  -- that are online and not busy. Its name and its cap are those of the configuration.
  abbrev pub Shows : RepoConfig → Trace → RepoState → Type 0
  Shows repo t rs =
      (page : List CountedRunner) × Listed repo t page
      × Counts (record { online = rs.online; busy = rs.busy; ghost = rs.ghosts }) page
      × (rs.idle ≡ pos (length (keep is_free page)))
      × (rs.name ≡ repo.name)
      × (rs.cap ≡ repo.max_concurrency)

  Listed-by :
      (repo : RepoConfig) (page : List CountedRunner) {t t' : Trace}
      → t' ≡ t
      → Listed repo t page
      → Listed repo t' page
  Listed-by repo page same h = subst (λ u. Listed repo u page) (sym same) h

  abbrev queued_url : RepoConfig → Bytes
  queued_url repo = run_count_url sp repo.name (codes "queued")

  abbrev progress_url : RepoConfig → Bytes
  progress_url repo = run_count_url sp repo.name (codes "in_progress")

  abbrev Same : Machine → Machine → Type 0
  Same m m' = (m'.spawner ≡ m.spawner) × (m'.cleaner ≡ m.cleaner)

  abbrev pub Reports : RepoConfig → Machine → Fallible RepoState × Machine → Type 0
  Reports repo m r =
      (((x : Bytes) × (r.0 ≡ err x)
          × ((e.url_error (queued_url repo) ≢ none) ⊎ (e.url_error (progress_url repo) ≢ none)))
        ⊎ ((rs : RepoState) × (r.0 ≡ ok rs)
            × Shows repo r.1.trace rs
            × (e.url_error (queued_url repo) ≡ none)
            × (e.url_error (progress_url repo) ≡ none)))
      × (r.1.spawner ≡ m.spawner)
      × (r.1.cleaner ≡ m.cleaner)

  shows_lem :
      (repo : RepoConfig) (m : Machine)
      → let n = (repo_runner_counts e sp repo m).0 in
        (page : List CountedRunner) × Listed repo (repo_runner_counts e sp repo m).1.trace page
        × Counts n page
        × (pos n.online -ℤ pos n.busy ≡ pos (length (keep is_free page)))
  shows_lem repo m =
      let (page, source, counts) = runner_counts_lem repo m in
      (page, source, counts, ground (arith, counts, idle_lem page))

  count_or_zero-Same : (repo : Bytes) (m : Machine) → Same m (count_running_or_zero e sp repo m).1
  unfolding count_running_or_zero count_running
  count_or_zero-Same repo m = ground arith

  query-Same : (name status : Bytes) (m : Machine) → Same m (query_run_count e sp name status m).1
  unfolding query_run_count
  query-Same name status m = ground arith

  runner_counts-Same : (repo : RepoConfig) (m : Machine) → Same m (repo_runner_counts e sp repo m).1
  unfolding repo_runner_counts
  runner_counts-Same repo m = ground arith

  query_cases :
      (name status : Bytes) (m : Machine)
      → let q = query_run_count e sp name status m in
        let url = run_count_url sp name status in
        ((e.url_error url ≢ none) × ((x : Bytes) × (q.0 ≡ err x)))
        ⊎ ((e.url_error url ≡ none) × ((n : ℤ) × (q.0 ≡ ok n)))
  unfolding query_run_count
  query_cases name status m =
      let url = run_count_url sp name status in
      elim (Option-cases (e.url_error url)) [
        | inr (x, bad) ↦ inl (λ fine. cc, (codes "nil pointer dereference", ground (arith, bad)))
        | inl fine ↦ elim (Fallible-cases (e.do_http m.trace (run_count_request sp url))) [
          | inr (x, failed) ↦ inr (fine, (pos 0, ground (arith, fine, failed)))
          | inl (resp, answered) ↦ inr (
            fine,
            (
              if resp.status == 200 then e.total_page resp.body else pos 0,
              ground (arith, fine, answered),
            ),
          )
        ]
      ]

  -- One report either panics, where a URL cannot be built, or shows what one listing says.
  pub collect_repo_state-Reports :
      (repo : RepoConfig) (m : Machine) → Reports repo m (collect_repo_state e sp repo m)
  unfolding collect_repo_state
  collect_repo_state-Reports repo m =
      let running = count_running_or_zero e sp repo.name m in
      let waiting = query_run_count e sp repo.name (codes "queued") running.1 in
      let begun = query_run_count e sp repo.name (codes "in_progress") waiting.1 in
      let counted = repo_runner_counts e sp repo begun.1 in
      let one = count_or_zero-Same repo.name m in
      let two = query-Same repo.name (codes "queued") running.1 in
      let three = query-Same repo.name (codes "in_progress") waiting.1 in
      let four = runner_counts-Same repo begun.1 in
      let (page, source, counts, idle) = shows_lem repo begun.1 in
      elim (query_cases repo.name (codes "queued") running.1) [
        | inl (bad, (x, failed)) ↦ (
          inl (x, ground (arith, failed), inl bad),
          ground (arith, failed, one, two),
          ground (arith, failed, one, two),
        )
        | inr (fine, (n, answered)) ↦ elim (query_cases repo.name (codes "in_progress") waiting.1) [
          | inl (bad, (x, failed)) ↦ (
            inl (x, ground (arith, answered, failed), inr bad),
            ground (arith, answered, failed, one, two, three),
            ground (arith, answered, failed, one, two, three),
          )
          | inr (good, (k, given)) ↦ (
            inr (
              record {
                name = repo.name;
                cap = repo.max_concurrency;
                queued = n;
                in_progress = k;
                online = counted.0.online;
                busy = counted.0.busy;
                idle = pos counted.0.online -ℤ pos counted.0.busy;
                ghosts = counted.0.ghost;
                running_ephemerals = running.0;
              },
              ground (arith, answered, given),
              (
                page,
                Listed-by repo page (ground (arith, answered, given)) source,
                counts,
                idle,
                refl,
                refl,
              ),
              fine,
              good,
            ),
            ground (arith, answered, given, one, two, three, four),
            ground (arith, answered, given, one, two, three, four),
          )
        ]
      ]
