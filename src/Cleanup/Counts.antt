-- ===== src/Cleanup/Counts.antt =====
-- internal/cleanup/cleanup.go: the result of one pass over a repository, its counters and requests.
use autoscaler.Cleanup.{
  GhostRunner, RepoResult, cancel_stuck, cleanup_repo, list_ghost_runners, run_ids_for_ghosts,
}
use autoscaler.Cleanup.Repo.{
  Moved, cancel_runs_lem, delete_ghosts_lem, deleted_urls, deletions, list_ghost_runners-Reads,
  run_ids-Reads,
}
use autoscaler.Common.{List, [], arith, inl, inr, length, ◌+◌, ◌<◌, ◌^◌, ◌∷◌, ◌≡◌}
use autoscaler.Config.{RepoConfig}
use autoscaler.Env.{Env}
use autoscaler.World.{Fallible, Fallible-cases, Machine, Spawner, err, ok}

module _ (e : Env) (sp : Spawner) where
  cancel_stuck_lem :
      (repo : RepoConfig) (gs : List GhostRunner) (m : Machine)
      → m.cleaner.runs_cancelled < 2 ^ 64
      → let r = cancel_stuck e sp repo gs m in
        Moved r.0 m.cleaner.runs_cancelled r.1.cleaner.runs_cancelled
        × (r.1.cleaner.ghosts_deleted ≡ m.cleaner.ghosts_deleted)
        × (r.1.cleaner.local_ghosts_reaped ≡ m.cleaner.local_ghosts_reaped)
        × (deleted_urls r.1.trace ≡ deleted_urls m.trace)
  unfolding cancel_stuck
  cancel_stuck_lem repo gs m h =
      let listed = run_ids_for_ghosts e sp repo gs m in
      elim (Fallible-cases listed.0) [
        | inl (ids, answered) ↦
            ground (
              arith,
              answered,
              run_ids-Reads e sp repo gs m,
              cancel_runs_lem e sp repo ids listed.1,
            )
        | inr (x, failed) ↦ ground (arith, failed, run_ids-Reads e sp repo gs m)
      ]

  -- What a pass over a repository has done, by its result.
  abbrev pub PassDone : RepoConfig → Machine → Fallible RepoResult × Machine → Type 0
  PassDone repo m (err x, m') =
      (m'.cleaner ≡ m.cleaner) × (deleted_urls m'.trace ≡ deleted_urls m.trace)
  PassDone repo m (ok res, m') =
      (res.found ≡ res.deleted + res.still_stuck)
      × Moved res.deleted m.cleaner.ghosts_deleted m'.cleaner.ghosts_deleted
      × Moved res.cancelled m.cleaner.runs_cancelled m'.cleaner.runs_cancelled
      × (m'.cleaner.local_ghosts_reaped ≡ m.cleaner.local_ghosts_reaped)
      × ((gs : List GhostRunner) × ((list_ghost_runners e sp repo m).0 ≡ ok gs)
          × (res.found ≡ length gs)
          × (deleted_urls m'.trace ≡ deletions e sp repo gs (deleted_urls m.trace)))

  -- A pass over a repository that returns an error has deleted nothing and moved no counter. One
  -- that returns a result has asked to delete exactly the ghosts that the listing showed, once each
  -- and in order; the ghosts found are those deleted and those still stuck; and the counters moved
  -- by the result. The counters are below 2 ^ 64 at the start.
  pub cleanup_repo-PassDone :
      (repo : RepoConfig) (m : Machine)
      → m.cleaner.runs_cancelled < 2 ^ 64
      → m.cleaner.ghosts_deleted < 2 ^ 64
      → PassDone repo m (cleanup_repo e sp repo m)
  unfolding cleanup_repo
  cleanup_repo-PassDone repo m h k =
      let listed = list_ghost_runners e sp repo m in
      elim (Fallible-cases listed.0) [
        | inl ([], answered) ↦ ground (arith, answered, list_ghost_runners-Reads e sp repo m)
        | inl (g ∷ gs, answered) ↦
            let cancelled = cancel_stuck e sp repo (g ∷ gs) listed.1 in
            ground (
              arith,
              answered,
              list_ghost_runners-Reads e sp repo m,
              cancel_stuck_lem repo (g ∷ gs) listed.1,
              delete_ghosts_lem e sp repo (g ∷ gs) cancelled.1,
            )
        | inr (x, failed) ↦ ground (arith, failed, list_ghost_runners-Reads e sp repo m)
      ]
