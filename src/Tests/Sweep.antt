-- ===== src/Tests/Sweep.antt =====
-- Two goroutines of one tick of internal/cleanup, and the theorems about interleavings at their run.
use autoscaler.Cleanup.{
  RepoResult, add_result, cleaner_get, delete_runner, force_cancel_run, ghosts_of,
  list_ghost_runners,
}
use autoscaler.Cleanup.Repo.{Moved}
use autoscaler.Cleanup.Sweep.Ended.{AllEnded, Sweeps-Moved}
use autoscaler.Cleanup.Sweep.Goroutine.{
  inspect_step, list_step, listing_ghosts, pass_step, reporting, search_step,
}
use autoscaler.Cleanup.Sweep.Halting.{Halts, Pass-Halts}
use autoscaler.Cleanup.Sweep.Justified.{AllJustified}
use autoscaler.Cleanup.Sweep.Overlap.{Booked, Sweeps-Booked}
use autoscaler.Cleanup.Sweep.Parallel.{
  Sweep, Sweeps, at_outset, fresh_sweep, one_more, reports, works,
}
use autoscaler.Cleanup.Sweep.Warranted.{Sweeps-AllJustified}
use autoscaler.Common.{arith, inl, refl, suc, zero, ℕ, ◌+◌, ◌≡◌}
use autoscaler.Config.{RepoConfig}
use autoscaler.Tests.Cleanup.{ghostly_world}
use autoscaler.Tests.World.{backend, deps, fresh}
use autoscaler.Text.{has_prefix}

abbrev jobs_of : ℕ → RepoConfig
jobs_of i = backend

abbrev pub only_tick : ℕ → ℕ
only_tick i = 0

abbrev pub two_repos : ℕ → ℕ
two_repos t = 2

abbrev Run : Type 0
Run = (s : Sweep) × Sweeps ghostly_world deps 2 jobs_of only_tick (fresh_sweep fresh two_repos) s

abbrev by_first : Run → Run
by_first (s, r) = (_, one_more r (works 0 (omega arith)))

abbrev by_second : Run → Run
by_second (s, r) = (_, one_more r (works 1 (omega arith)))

-- Each goroutine takes its next step.
abbrev by_both : Run → Run
by_both r = by_second (by_first r)

abbrev one_done : RepoResult
one_done = record { found = 1; cancelled = 1; deleted = 1; still_stuck = 0 }

-- Both stand before the mutex of the summary.
at_mutex : Run
at_mutex = by_both (
    by_both (
      by_both (by_both (by_both (by_both (by_both (by_both (by_both (by_both (_, at_outset))))))))))

both_reporting : (at_mutex.0.pass 0 ≡ reporting one_done) × (at_mutex.0.pass 1 ≡ reporting one_done)
unfolding at_mutex pass_step list_step search_step inspect_step list_ghost_runners ghosts_of
    cleaner_get force_cancel_run delete_runner has_prefix
both_reporting = (refl, refl)

abbrev all_over : Run
all_over = (
  _,
  one_more (one_more at_mutex.1 (reports 0 one_done (omega arith) both_reporting.0))
      (reports 1 one_done (omega arith) both_reporting.1),
)

-- The summary adds both results up.
both_summed : (all_over.0.summary 0).ghosts_deleted ≡ 2
unfolding add_result at_mutex
both_summed = refl

both_ended : AllEnded 2 only_tick 0 all_over.0.pass
both_ended zero below own_tick = inl (one_done, refl)
both_ended (suc zero) below own_tick = inl (one_done, refl)
both_ended (suc (suc i)) below own_tick = absurd (omega arith)

Sweeps-Booked_example : Booked 2 only_tick two_repos fresh all_over.0
Sweeps-Booked_example =
    Sweeps-Booked 2 only_tick ghostly_world deps jobs_of two_repos fresh (omega arith) (omega arith)
      all_over.1

Sweeps-Moved_example :
    let x = all_over.0.summary 0 in
    (x.ghosts_found ≡ x.ghosts_deleted + x.ghosts_still_stuck)
    × Moved x.ghosts_deleted fresh.cleaner.ghosts_deleted all_over.0.machine.cleaner.ghosts_deleted
    × Moved x.runs_cancelled fresh.cleaner.runs_cancelled all_over.0.machine.cleaner.runs_cancelled
Sweeps-Moved_example =
    Sweeps-Moved 2 only_tick ghostly_world deps jobs_of two_repos fresh 0 (omega arith)
      (omega arith) all_over.1 (λ i below. refl) both_ended

Sweeps-AllJustified_example : AllJustified ghostly_world deps all_over.0.machine.trace
Sweeps-AllJustified_example =
    Sweeps-AllJustified ghostly_world deps 2 jobs_of only_tick fresh two_repos tt all_over.1

Pass-Halts_example : Halts ghostly_world deps backend listing_ghosts
Pass-Halts_example = Pass-Halts ghostly_world deps backend listing_ghosts
