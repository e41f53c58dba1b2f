-- ===== src/Cleanup/Sweep/Ended.antt =====
-- internal/cleanup/cleanup.go: a tick whose goroutines have all ended.
use autoscaler.Cleanup.{RepoResult}
use autoscaler.Cleanup.Sweep.Balance.{shares}
use autoscaler.Cleanup.Sweep.Books.{Sound, cancelled_by, deleted_by}
use autoscaler.Cleanup.Sweep.Goroutine.{Pass, given_up, reported}
use autoscaler.Cleanup.Sweep.Overlap.{Sweeps-Booked}
use autoscaler.Cleanup.Sweep.Parallel.{Sweep, Sweeps, fresh_sweep}
use autoscaler.Cleanup.Repo.{Moved}
use autoscaler.Cleanup.Sweep.Sums.{sum, sum-add, sum_cong}
use autoscaler.Common.{arith, inl, inr, refl, ℕ, ◌+◌, ◌<◌, ◌^◌, ◌∙◌, ◌≡◌, ◌⊎◌}
use autoscaler.Config.{RepoConfig}
use autoscaler.Env.{Env}
use autoscaler.Text.{Bytes}
use autoscaler.World.{Machine, Spawner}

module _ (n : ℕ) (tick_of : ℕ → ℕ) where
  -- Every goroutine of the tick has ended, as `wg.Wait()` finds it.
  abbrev pub AllEnded : ℕ → (ℕ → Pass) → Type 0
  AllEnded t pass =
      (i : ℕ)
      → i < n
      → tick_of i ≡ t
      → ((r : RepoResult) × (pass i ≡ reported r)) ⊎ ((x : Bytes) × (pass i ≡ given_up x))

  ended_lem :
      (field : RepoResult → ℕ) (w : Pass → ℕ) (t : ℕ) (pass : ℕ → Pass) (i : ℕ)
      → tick_of i ≡ t
      → ((r : RepoResult) × (pass i ≡ reported r)) ⊎ ((x : Bytes) × (pass i ≡ given_up x))
      → ((r : RepoResult) → w (reported r) ≡ field r)
      → ((x : Bytes) → w (given_up x) ≡ 0)
      → w (pass i) ≡ shares n tick_of field t i (pass i)
  ended_lem field w t pass i own_tick (inl (r, at_end)) f g =
      rw at_end (ground (arith, own_tick, f r))
  ended_lem field w t pass i own_tick (inr (x, at_end)) f g =
      rw at_end (ground (arith, own_tick, g x))

  found_share_lem :
      (t i : ℕ) (p : Pass)
      → Sound p
      → shares n tick_of (λ r. r.found) t i p
        ≡ shares n tick_of (λ r. r.deleted) t i p + shares n tick_of (λ r. r.still_stuck) t i p
  found_share_lem t i (reported r) h = ground arith
  found_share_lem t i _ h = ground arith

  found_lem :
      (t : ℕ) (pass : ℕ → Pass)
      → ((i : ℕ) → Sound (pass i))
      → sum (shares n tick_of (λ r. r.found) t) n pass
        ≡ sum (shares n tick_of (λ r. r.deleted) t) n pass
          + sum (shares n tick_of (λ r. r.still_stuck) t) n pass
  found_lem t pass sound =
      sum_cong (shares n tick_of (λ r. r.found) t)
        (λ i p.
          shares n tick_of (λ r. r.deleted) t i p + shares n tick_of (λ r. r.still_stuck) t i p)
        n pass (λ i below. found_share_lem t i (pass i) (sound i))
      ∙ sum-add (shares n tick_of (λ r. r.deleted) t) (shares n tick_of (λ r. r.still_stuck) t) n
          pass

module _ (n : ℕ) (tick_of : ℕ → ℕ) (e : Env) (sp : Spawner) (job : ℕ → RepoConfig) (sizes : ℕ → ℕ)
    (origin : Machine) where
  -- The goroutines of one tick, however many, in whatever way their requests interleave with
  -- each other and with anything else that leaves the counters of cancelled runs and deleted
  -- ghosts alone and deletes no runner: once all have ended, the ghosts found in the tick's
  -- summary are those deleted and those still stuck, and the two counters have moved by the
  -- summary's numbers, modulo 2 ^ 64. The counters are below 2 ^ 64 at the start.
  pub Sweeps-Moved :
      {s : Sweep} (t : ℕ)
      → origin.cleaner.ghosts_deleted < 2 ^ 64
      → origin.cleaner.runs_cancelled < 2 ^ 64
      → Sweeps e sp n job tick_of (fresh_sweep origin sizes) s
      → ((i : ℕ) → i < n → tick_of i ≡ t)
      → AllEnded n tick_of t s.pass
      → ((s.summary t).ghosts_found
          ≡ (s.summary t).ghosts_deleted + (s.summary t).ghosts_still_stuck)
        × Moved
            (s.summary t).ghosts_deleted
            origin.cleaner.ghosts_deleted
            s.machine.cleaner.ghosts_deleted
        × Moved
            (s.summary t).runs_cancelled
            origin.cleaner.runs_cancelled
            s.machine.cleaner.runs_cancelled
  Sweeps-Moved {s} t h k run one_tick at_end =
      let b = Sweeps-Booked n tick_of e sp job sizes origin h k run in
      let all_deleted =
        sum_cong (λ i. deleted_by) (shares n tick_of (λ r. r.deleted) t) n s.pass
          (λ i below.
            ended_lem n tick_of (λ r. r.deleted) deleted_by t s.pass i (one_tick i below)
              (at_end i below (one_tick i below)) (λ r. refl) (λ x. refl)) in
      let all_cancelled =
        sum_cong (λ i. cancelled_by) (shares n tick_of (λ r. r.cancelled) t) n s.pass
          (λ i below.
            ended_lem n tick_of (λ r. r.cancelled) cancelled_by t s.pass i (one_tick i below)
              (at_end i below (one_tick i below)) (λ r. refl) (λ x. refl)) in
      (
        rw (b.summed t) (found_lem n tick_of t s.pass b.sound),
        rw (b.summed t) (omega (arith, b.deleted, all_deleted)),
        rw (b.summed t) (omega (arith, b.cancelled, all_cancelled)),
      )
