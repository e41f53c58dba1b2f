-- ===== src/Cleanup/Tick.antt =====
-- internal/cleanup/cleanup.go: one tick over all repositories, and its summary. The goroutines of
-- the repositories run here one after the other, in an order that is an argument.
use autoscaler.Cleanup.Defs.{RepoResult, cleanup_repo, default_local_grace}
use autoscaler.Cleanup.Local.{reap_local_ghosts}
use autoscaler.Common.{List, [], if◌then◌else◌, leb_ℤ, length, pos, ℕ, ℤ, ◌+◌, ◌∷◌}
use autoscaler.Config.{RepoConfig}
use autoscaler.Env.{Env}
use autoscaler.World.{CleanerState, M, Spawner, Summary, err, ok, pure, ◌>>=◌, ◌>>◌}

abbrev pub no_summary_yet : ℕ → Summary
no_summary_yet n = record {
  repos = n;
  ghosts_found = 0;
  runs_cancelled = 0;
  ghosts_deleted = 0;
  ghosts_still_stuck = 0;
  local_ghosts_reaped = 0;
  total_ghosts_deleted = 0;
  total_runs_cancelled = 0;
  total_local_ghosts_reaped = 0;
}

-- What a goroutine adds to the summary, under the tick's mutex.
unfoldable pub add_result : Summary → RepoResult → Summary
add_result s r = record s {
  ghosts_found = s.ghosts_found + r.found;
  runs_cancelled = s.runs_cancelled + r.cancelled;
  ghosts_deleted = s.ghosts_deleted + r.deleted;
  ghosts_still_stuck = s.ghosts_still_stuck + r.still_stuck;
}

-- The lifetime counters, as `Load` reads them.
unfoldable pub with_totals : CleanerState → Summary → Summary
with_totals c s = record s {
  total_ghosts_deleted = c.ghosts_deleted;
  total_runs_cancelled = c.runs_cancelled;
  total_local_ghosts_reaped = c.local_ghosts_reaped;
}

module _ (e : Env) (sp : Spawner) where
  unfoldable pub clean_repos : List RepoConfig → Summary → M Summary
  clean_repos [] s = pure s
  clean_repos (repo ∷ repos) s = do
    r ← cleanup_repo e sp repo
    elim r [ err x ↦ clean_repos repos s | ok res ↦ clean_repos repos (add_result s res) ]

  -- `order` is the order in which the goroutines of `repos` run.
  unfoldable pub tick_with_summary : List RepoConfig → List RepoConfig → M Summary
  tick_with_summary repos order = do
    s ← clean_repos order (no_summary_yet (length repos))
    n ← reap_local_ghosts e sp repos
    λ m.
        (let summary = with_totals m.cleaner (record s { local_ghosts_reaped = n }) in
          (summary, record m { cleaner = record (m.cleaner) { last_summary = summary } }))

-- `LastSummary`.
unfoldable pub last_summary_of : M Summary
last_summary_of m = (with_totals m.cleaner m.cleaner.last_summary, m)

-- `New`.
abbrev pub new_cleaner : CleanerState
new_cleaner = record {
  local_grace = default_local_grace;
  ghosts_deleted = 0;
  runs_cancelled = 0;
  local_ghosts_reaped = 0;
  last_summary = no_summary_yet 0;
}

-- The interval of `Run`, in nanoseconds.
abbrev pub cleanup_interval : ℤ → ℤ
cleanup_interval interval = if leb_ℤ interval (pos 0) then pos 300000000000 else interval

module _ (e : Env) (sp : Spawner) where
  abbrev pub cleaner_tick : List RepoConfig → List RepoConfig → M (Unit {0})
  cleaner_tick repos order = do tick_with_summary e sp repos order; pure tt

  -- The loop of `Run`, until the context is done: before each tick of its ticker, what the rest of
  -- the process does, and the order of the tick's goroutines.
  unfoldable pub cleaner_ticks :
      List RepoConfig → List (M (Unit {0}) × List RepoConfig) → M (Unit {0})
  cleaner_ticks repos [] = pure tt
  cleaner_ticks repos ((meanwhile, order) ∷ more) = do
    meanwhile
    cleaner_tick repos order
    cleaner_ticks repos more

  unfoldable pub cleaner_run :
      List RepoConfig → List RepoConfig → List (M (Unit {0}) × List RepoConfig) → M (Unit {0})
  cleaner_run repos order waits = do cleaner_tick repos order; cleaner_ticks repos waits
