-- ===== src/Cleanup/Sweep/Parallel.antt =====
-- internal/cleanup/cleanup.go: any number of goroutines of any number of ticks at once. Goroutine i
-- works on the repository `job i` for the tick `tick_of i`; Tick of the portal and that of the loop
-- may overlap.
use autoscaler.Cleanup.{RepoResult, add_result, no_summary_yet}
use autoscaler.Cleanup.Sweep.Goroutine.{Pass, listing_ghosts, pass_step, reported, reporting}
use autoscaler.Cleanup.Repo.{deleted_urls}
use autoscaler.Cleanup.Sweep.Sums.{put}
use autoscaler.Common.{[], ℕ, ◌++◌, ◌<◌, ◌≡◌}
use autoscaler.Config.{RepoConfig}
use autoscaler.Env.{Env}
use autoscaler.World.{Machine, Spawner, Summary, Trace}

pub record Sweep : Type 0 where
  pub machine : Machine
  pub pass : ℕ → Pass
  pub summary : ℕ → Summary

-- No goroutine has begun; tick t goes over `sizes t` repositories.
abbrev pub fresh_sweep : Machine → (ℕ → ℕ) → Sweep
fresh_sweep m sizes = record {
  machine = m;
  pass = λ i. listing_ghosts;
  summary = λ t. no_summary_yet (sizes t);
}

module _ (e : Env) (sp : Spawner) (n : ℕ) (job : ℕ → RepoConfig) (tick_of : ℕ → ℕ) where
  pub data SweepStep (s : Sweep) : Sweep → Type 0 where
    works :
        (i : ℕ)
        → i < n
        → SweepStep s (record s {
          machine = (pass_step e sp (job i) (s.pass i) s.machine).1;
          pass = put s.pass i (pass_step e sp (job i) (s.pass i) s.machine).0;
        })
    -- Between `mu.Lock()` and `mu.Unlock()`.
    reports :
        (i : ℕ) (r : RepoResult)
        → i < n
        → s.pass i ≡ reporting r
        → SweepStep s (record s {
          pass = put s.pass i (reported r);
          summary = put s.summary (tick_of i) (add_result (s.summary (tick_of i)) r);
        })
    -- Whatever the rest of the process does, besides these two counters and the deletion of runners.
    elsewhere :
        (m : Machine) (more : Trace)
        → m.cleaner.ghosts_deleted ≡ s.machine.cleaner.ghosts_deleted
        → m.cleaner.runs_cancelled ≡ s.machine.cleaner.runs_cancelled
        → m.trace ≡ more ++ s.machine.trace
        → deleted_urls more ≡ []
        → SweepStep s (record s { machine = m })

  pub data Sweeps (start : Sweep) : Sweep → Type 0 where
    at_outset : Sweeps start start
    one_more : {s t : Sweep} → Sweeps start s → SweepStep s t → Sweeps start t
