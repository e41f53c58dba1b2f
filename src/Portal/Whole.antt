-- ===== src/Portal/Whole.antt =====
-- All that /api/state says, against the state of the process.
use autoscaler.Cleanup.{last_summary_of}
use autoscaler.Common.{All, List, [], arith, false, inl, inr, none, refl, ◌∷◌, ◌≡◌, ◌≢◌, ◌⊎◌}
use autoscaler.Config.{RepoConfig}
use autoscaler.Env.{Env}
use autoscaler.Portal.{
  RepoState, State, collect_repo_state, collect_repos, collect_state, container_states,
  list_live_ephemerals, live_args, run_count_url,
}
use autoscaler.Portal.Report.{Shows, collect_repo_state-Reports}
use autoscaler.Spawner.{stats_of}
use autoscaler.Text.{Bytes, codes, split, trim_space}
use autoscaler.World.{Fallible, Machine, Spawner, err, ok}

module _ (e : Env) (sp : Spawner) where
  never_busy : (lines : List Bytes) → All (λ c. c.busy ≡ false) (container_states lines)
  unfolding container_states
  never_busy [] = tt
  never_busy (line ∷ lines) = ground (arith, never_busy lines)

  live-never_busy : (m : Machine) → All (λ c. c.busy ≡ false) (list_live_ephemerals e sp m).0
  unfolding list_live_ephemerals
  live-never_busy m =
      let listed = e.run_docker m.trace live_args in
      ground (arith, never_busy (split (trim_space listed.stdout) b'\n'))

  live-same :
      (m : Machine)
      → let m' = (list_live_ephemerals e sp m).1 in
        (m'.spawner ≡ m.spawner) × (m'.cleaner ≡ m.cleaner)
  unfolding list_live_ephemerals
  live-same m = ground arith

  -- One report for each repository, in the order of the configuration, each of a listing that was
  -- made for it.
  abbrev pub AllShow : List RepoConfig → List RepoState → Machine → Type 0
  AllShow [] [] m = Unit
  AllShow (repo ∷ repos) (rs ∷ states) m =
      let m' = (collect_repo_state e sp repo m).1 in
      Shows e sp repo m'.trace rs × AllShow repos states m'
  AllShow [] (rs ∷ states) m = ⊥
  AllShow (repo ∷ repos) [] m = ⊥

  -- A repository for which the URL of a count of runs cannot be built.
  abbrev pub Bad : RepoConfig → Type 0
  Bad repo =
      (e.url_error (run_count_url sp repo.name (codes "queued")) ≢ none)
      ⊎ (e.url_error (run_count_url sp repo.name (codes "in_progress")) ≢ none)

  abbrev pub SomeBad : List RepoConfig → Type 0
  SomeBad [] = ⊥
  SomeBad (repo ∷ repos) = Bad repo ⊎ SomeBad repos

  abbrev Collected : List RepoConfig → Machine → Fallible (List RepoState) × Machine → Type 0
  Collected repos m r =
      (((x : Bytes) × (r.0 ≡ err x) × (SomeBad repos))
        ⊎ ((states : List RepoState) × (r.0 ≡ ok states)
            × AllShow repos states m
            × All (λ repo. ¬ Bad repo) repos))
      × (r.1.spawner ≡ m.spawner)
      × (r.1.cleaner ≡ m.cleaner)

  excluded :
      (repo : RepoConfig)
      → e.url_error (run_count_url sp repo.name (codes "queued")) ≡ none
      → e.url_error (run_count_url sp repo.name (codes "in_progress")) ≡ none
      → ¬ Bad repo
  excluded repo fine good (inl bad) = bad fine
  excluded repo fine good (inr bad) = bad good

  collect_repos-Collected :
      (repos : List RepoConfig) (m : Machine) → Collected repos m (collect_repos e sp repos m)
  unfolding collect_repos
  collect_repos-Collected [] m = (inr ([], refl, tt, tt), refl, refl)
  collect_repos-Collected (repo ∷ repos) m =
      let first = collect_repo_state e sp repo m in
      let (outcome, same, untouched) = collect_repo_state-Reports e sp repo m in
      elim outcome [
        | inl (x, failed, bad) ↦ (
          inl (x, ground (arith, failed), inl bad),
          ground (arith, failed, same),
          ground (arith, failed, untouched),
        )
        | inr (rs, there, shows, fine, good) ↦
            let (rest, also, still) = collect_repos-Collected repos first.1 in
            elim rest [
              | inl (x, failed, some_bad) ↦ (
                inl (x, ground (arith, there, failed), inr some_bad),
                ground (arith, there, failed, same, also),
                ground (arith, there, failed, untouched, still),
              )
              | inr (states, collected, show, all_good) ↦ (
                inr (
                  rs ∷ states,
                  ground (arith, there, collected),
                  (shows, show),
                  (excluded repo fine good, all_good),
                ),
                ground (arith, there, collected, same, also),
                ground (arith, there, collected, untouched, still),
              )
            ]
      ]

  -- The stats, the last summary and the flag are those of the process, each repository is reported,
  -- and no container is shown as busy.
  abbrev pub Says : List RepoConfig → Machine → State → Type 0
  Says repos m st =
      (st.stats ≡ (stats_of m).0)
      × (st.cleanup ≡ (last_summary_of m).0)
      × (st.paused ≡ m.spawner.paused)
      × AllShow repos st.repos m
      × All (λ c. c.busy ≡ false) st.containers

  abbrev pub Whole : List RepoConfig → Machine → Fallible State × Machine → Type 0
  Whole repos m r =
      (((x : Bytes) × (r.0 ≡ err x) × SomeBad repos)
        ⊎ ((st : State) × (r.0 ≡ ok st) × Says repos m st × All (λ repo. ¬ Bad repo) repos))
      × (r.1.spawner ≡ m.spawner)
      × (r.1.cleaner ≡ m.cleaner)

  -- The report of /api/state changes nothing of the spawner and the cleaner. It panics exactly if
  -- for some repository the URL of one of its two counts of runs cannot be built. Otherwise it holds
  -- the lifetime counters, the last summary and the pause flag of the process, every container as
  -- not busy, and for each repository, in order, its name and cap with the numbers of the listing of
  -- its runners that the last call of its report was answered with: online, busy and ghosts among
  -- the runners of the program, and idle those that are online and not busy. An answer other than
  -- 200 or with an error, and a URL that cannot be built, count as a listing of none.
  pub collect_state-Whole :
      (repos : List RepoConfig) (m : Machine) → Whole repos m (collect_state e sp repos m)
  unfolding collect_state stats_of last_summary_of
  collect_state-Whole repos m =
      let collected = collect_repos e sp repos m in
      let (outcome, same, untouched) = collect_repos-Collected repos m in
      elim outcome [
        | inl (x, failed, bad) ↦ (
          inl (x, ground (arith, failed), bad),
          ground (arith, failed, same),
          ground (arith, failed, untouched),
        )
        | inr (states, there, show, all_good) ↦
            let live = list_live_ephemerals e sp collected.1 in
            (
              inr (
                record {
                  stats = (stats_of m).0;
                  cleanup = (last_summary_of m).0;
                  repos = states;
                  containers = live.0;
                  paused = m.spawner.paused;
                },
                ground (arith, there),
                (refl, refl, refl, show, live-never_busy collected.1),
                all_good,
              ),
              ground (arith, there, same, live-same collected.1),
              ground (arith, there, untouched, live-same collected.1),
            )
      ]
