-- ===== src/Cleanup/Sweep/Balance.antt =====
-- internal/cleanup/cleanup.go: the state of several ticks at once, against what their goroutines
-- have done.
use autoscaler.Cleanup.{RepoResult, add_result, no_summary_yet}
use autoscaler.Cleanup.Sweep.Books.{share}
use autoscaler.Cleanup.Sweep.Goroutine.{Pass, listing_ghosts, reported, reporting}
use autoscaler.Cleanup.Sweep.Sums.{put, sum, sum-put, sum-put_same, sum-zero}
use autoscaler.Common.{ap, arith, if◌then◌else◌, refl, ℕ, ◌+◌, ◌<◌, ◌==◌, ◌≡◌}
use autoscaler.World.{Summary}

module _ (n : ℕ) (tick_of : ℕ → ℕ) where
  -- What a goroutine has added to the summary of a tick.
  abbrev pub shares : (RepoResult → ℕ) → ℕ → ℕ → Pass → ℕ
  shares field t i p = if tick_of i == t then share field p else 0

  -- The summary of a tick over `size` repositories, from what its goroutines have reported.
  abbrev pub totals : ℕ → ℕ → (ℕ → Pass) → Summary
  totals size t pass = record (no_summary_yet size) {
    ghosts_found = sum (shares (λ r. r.found) t) n pass;
    runs_cancelled = sum (shares (λ r. r.cancelled) t) n pass;
    ghosts_deleted = sum (shares (λ r. r.deleted) t) n pass;
    ghosts_still_stuck = sum (shares (λ r. r.still_stuck) t) n pass;
  }

  sum-works :
      (field : RepoResult → ℕ) (t : ℕ) (pass : ℕ → Pass) (i : ℕ) (p : Pass)
      → ((f : RepoResult → ℕ) → share f p ≡ share f (pass i))
      → i < n
      → sum (shares field t) n (put pass i p) ≡ sum (shares field t) n pass
  sum-works field t pass i p same below =
      sum-put_same (shares field t) n pass i p
        (ap (λ k. if tick_of i == t then k else 0) (same field)) below

  pub totals-works :
      (size t : ℕ) (pass : ℕ → Pass) (i : ℕ) (p : Pass)
      → ((f : RepoResult → ℕ) → share f p ≡ share f (pass i))
      → i < n
      → totals size t (put pass i p) ≡ totals size t pass
  totals-works size t pass i p same below =
      rw
        (
          sum-works (λ r. r.found) t pass i p same below,
          sum-works (λ r. r.cancelled) t pass i p same below,
          sum-works (λ r. r.deleted) t pass i p same below,
          sum-works (λ r. r.still_stuck) t pass i p same below,
        )
        refl

  sum-reports :
      (field : RepoResult → ℕ) (t : ℕ) (pass : ℕ → Pass) (i : ℕ) (r : RepoResult)
      → i < n
      → pass i ≡ reporting r
      → sum (shares field t) n (put pass i (reported r))
        ≡ sum (shares field t) n pass + (if tick_of i == t then field r else 0)
  sum-reports field t pass i r below at_end =
      let before : shares field t i (pass i) ≡ 0 = rw at_end (ground arith) in
      omega (arith, sum-put (shares field t) n pass i (reported r) below, before)

  pub totals-reports :
      (size t : ℕ) (pass : ℕ → Pass) (i : ℕ) (r : RepoResult)
      → i < n
      → pass i ≡ reporting r
      → totals size t (put pass i (reported r))
        ≡ (if tick_of i == t then add_result (totals size t pass) r else totals size t pass)
  unfolding add_result
  totals-reports size t pass i r below at_end = ground (
    arith,
    sum-reports (λ r. r.found) t pass i r below at_end,
    sum-reports (λ r. r.cancelled) t pass i r below at_end,
    sum-reports (λ r. r.deleted) t pass i r below at_end,
    sum-reports (λ r. r.still_stuck) t pass i r below at_end,
  )

  pub totals-fresh : (size t : ℕ) → totals size t (λ i. listing_ghosts) ≡ no_summary_yet size
  totals-fresh size t = ground (
    arith,
    sum-zero (shares (λ r. r.found) t) n (λ i. listing_ghosts) (λ i. ground arith),
    sum-zero (shares (λ r. r.cancelled) t) n (λ i. listing_ghosts) (λ i. ground arith),
    sum-zero (shares (λ r. r.deleted) t) n (λ i. listing_ghosts) (λ i. ground arith),
    sum-zero (shares (λ r. r.still_stuck) t) n (λ i. listing_ghosts) (λ i. ground arith),
  )
