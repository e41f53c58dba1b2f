-- ===== src/Cleanup/Sweep/Overlap.antt =====
-- internal/cleanup/cleanup.go: overlapping ticks, between two steps.
use autoscaler.Cleanup.{RepoResult, add_result}
use autoscaler.Cleanup.Sweep.Balance.{totals, totals-fresh, totals-reports, totals-works}
use autoscaler.Cleanup.Sweep.Books.{Sound, cancelled_by, deleted_by, pass_step-Kept}
use autoscaler.Cleanup.Sweep.Goroutine.{Pass, listing_ghosts, pass_step, reported, reporting}
use autoscaler.Cleanup.Sweep.Parallel.{
  Sweep, Sweeps, at_outset, elsewhere, fresh_sweep, one_more, reports, works,
}
use autoscaler.Cleanup.Sweep.Sums.{put, sum, sum-put, sum-zero}
use autoscaler.Common.{
  Bool-cases, ap, arith, if◌then◌else◌, inl, inr, refl, subst, suc, sym, ℕ, ◌%◌, ◌+◌, ◌<◌, ◌==◌,
  ◌^◌, ◌∙◌, ◌≡◌, ◌⊎◌,
}
use autoscaler.Config.{RepoConfig}
use autoscaler.Env.{Env}
use autoscaler.World.{Machine, Spawner, Summary, increment}

module _ (n : ℕ) (tick_of : ℕ → ℕ) where
  -- `sizes` says over how many repositories each tick goes.
  pub record Booked (sizes : ℕ → ℕ) (origin : Machine) (s : Sweep) : Type 0 where
    pub sound : (i : ℕ) → Sound (s.pass i)
    pub deleted :
        s.machine.cleaner.ghosts_deleted
        ≡ (origin.cleaner.ghosts_deleted + sum (λ i. deleted_by) n s.pass) % 2 ^ 64
    pub cancelled :
        s.machine.cleaner.runs_cancelled
        ≡ (origin.cleaner.runs_cancelled + sum (λ i. cancelled_by) n s.pass) % 2 ^ 64
    pub summed : (t : ℕ) → s.summary t ≡ totals n tick_of (sizes t) t s.pass

  put-Sound :
      (pass : ℕ → Pass) (i : ℕ) (p : Pass)
      → ((j : ℕ) → Sound (pass j))
      → Sound p
      → (j : ℕ) → Sound (put pass i p j)
  put-Sound pass i p all own j = elim (Bool-cases (i == j)) [
    | inl same ↦ rw same own
    | inr apart ↦ rw apart (all j)
  ]

  -- A counter that moves with what one goroutine has added to it.
  moved_lem :
      (w : Pass → ℕ) (pass : ℕ → Pass) (i : ℕ) (p : Pass) (origin before after : ℕ)
      → i < n
      → ((after ≡ before) × (w p ≡ w (pass i)))
        ⊎ ((after ≡ increment before) × (w p ≡ suc (w (pass i))))
      → before ≡ (origin + sum (λ j. w) n pass) % 2 ^ 64
      → after ≡ (origin + sum (λ j. w) n (put pass i p)) % 2 ^ 64
  moved_lem w pass i p origin before after below (inl (a, b)) h =
      omega (arith, sum-put (λ j. w) n pass i p below, a, b, h)
  moved_lem w pass i p origin before after below (inr (a, b)) h =
      omega (arith, sum-put (λ j. w) n pass i p below, a, b, h)

  -- The summary of the tick that a goroutine reports to is the only one that moves.
  report_lem :
      (summary : ℕ → Summary) (t k : ℕ) (r : RepoResult) (before after : Summary)
      → summary t ≡ before
      → after ≡ (if k == t then add_result before r else before)
      → put summary k (add_result (summary k) r) t ≡ after
  report_lem summary t k r before after h added_up = elim (Bool-cases (k == t)) [
    | inl same ↦
        let at : k ≡ t = ground (arith, same) in
        rw same (
          ap (λ j. add_result (summary j) r) at
          ∙ ap (λ x. add_result x r) h
          ∙ sym (added_up ∙ rw same refl))
    | inr apart ↦ rw apart (h ∙ sym (added_up ∙ rw apart refl))
  ]

  module _ (e : Env) (sp : Spawner) (job : ℕ → RepoConfig) (sizes : ℕ → ℕ) (origin : Machine) where
    works-Booked :
        (s : Sweep) (i : ℕ)
        → i < n
        → Booked sizes origin s
        → let r = pass_step e sp (job i) (s.pass i) s.machine in
          Booked sizes origin (record s { machine = r.1; pass = put s.pass i r.0 })
    works-Booked s i below b =
        let r = pass_step e sp (job i) (s.pass i) s.machine in
        let kept_all = pass_step-Kept e sp (job i) (s.pass i) s.machine in
        record {
          sound = put-Sound s.pass i r.0 b.sound (kept_all.2 (b.sound i));
          deleted =
              moved_lem deleted_by s.pass i r.0 origin.cleaner.ghosts_deleted
                s.machine.cleaner.ghosts_deleted r.1.cleaner.ghosts_deleted below kept_all.0
                b.deleted;
          cancelled =
              moved_lem cancelled_by s.pass i r.0 origin.cleaner.runs_cancelled
                s.machine.cleaner.runs_cancelled r.1.cleaner.runs_cancelled below kept_all.1
                b.cancelled;
          summed = λ t.
              b.summed t ∙ sym (totals-works n tick_of (sizes t) t s.pass i r.0 kept_all.3 below);
        }

    reports-Booked :
        (s : Sweep) (i : ℕ) (r : RepoResult)
        → i < n
        → s.pass i ≡ reporting r
        → Booked sizes origin s
        → Booked sizes origin (record s {
          pass = put s.pass i (reported r);
          summary = put s.summary (tick_of i) (add_result (s.summary (tick_of i)) r);
        })
    reports-Booked s i r below at_end b =
        let own : Sound (reporting r) = subst Sound at_end (b.sound i) in
        record {
          sound = put-Sound s.pass i (reported r) b.sound own;
          deleted =
              moved_lem deleted_by s.pass i (reported r) origin.cleaner.ghosts_deleted _ _ below
                (inl (refl, rw at_end refl)) b.deleted;
          cancelled =
              moved_lem cancelled_by s.pass i (reported r) origin.cleaner.runs_cancelled _ _ below
                (inl (refl, rw at_end refl)) b.cancelled;
          summed = λ t.
              report_lem s.summary t (tick_of i) r _ _ (b.summed t)
                (totals-reports n tick_of (sizes t) t s.pass i r below at_end);
        }

    fresh-Booked :
        origin.cleaner.ghosts_deleted < 2 ^ 64
        → origin.cleaner.runs_cancelled < 2 ^ 64
        → Booked sizes origin (fresh_sweep origin sizes)
    fresh-Booked h k = record {
      sound = λ i. tt;
      deleted = omega (arith, sum-zero (λ i. deleted_by) n (λ i. listing_ghosts) (λ i. refl), h);
      cancelled =
          omega (arith, sum-zero (λ i. cancelled_by) n (λ i. listing_ghosts) (λ i. refl), k);
      summed = λ t. sym (totals-fresh n tick_of (sizes t) t);
    }

    -- In every state that any interleaving of the goroutines of any number of ticks, and of
    -- anything else that leaves the counters of cancelled runs and deleted ghosts alone and
    -- deletes no runner, reaches: the summary of each tick is the sum of the results that its
    -- goroutines have reported; each of the two counters has moved, modulo 2 ^ 64, by the sum
    -- of what the goroutines have done; and of each goroutine behind the listing of runs, the
    -- ghosts found are those deleted, those still stuck and those that are left. The counters
    -- are below 2 ^ 64 at the start.
    pub Sweeps-Booked :
        {s : Sweep}
        → origin.cleaner.ghosts_deleted < 2 ^ 64
        → origin.cleaner.runs_cancelled < 2 ^ 64
        → Sweeps e sp n job tick_of (fresh_sweep origin sizes) s
        → Booked sizes origin s
    Sweeps-Booked h k at_outset = fresh-Booked h k
    Sweeps-Booked h k (one_more {s = u} run (works i below)) =
        works-Booked u i below (Sweeps-Booked h k run)
    Sweeps-Booked h k (one_more {s = u} run (reports i r below at_end)) =
        reports-Booked u i r below at_end (Sweeps-Booked h k run)
    Sweeps-Booked h k
          (one_more {s = u} run (elsewhere m more same_deleted same_cancelled longer quiet)) =
        let b = Sweeps-Booked h k run in
        record {
          sound = b.sound;
          deleted = same_deleted ∙ b.deleted;
          cancelled = same_cancelled ∙ b.cancelled;
          summed = b.summed;
        }
