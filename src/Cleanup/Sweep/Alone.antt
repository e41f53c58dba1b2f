-- ===== src/Cleanup/Sweep/Alone.antt =====
-- internal/cleanup/cleanup.go: a goroutine that runs `cleanupRepo` alone.
use autoscaler.Cleanup.{
  GhostRunner, RepoResult, cancel_runs, cancel_stuck, cleaner_get, cleanup_repo, delete_ghosts,
  delete_runner, force_cancel_run, insert_id, is_stuck_job, list_ghost_runners, no_result,
  repo_url_of, run_ids_for_ghosts, stuck_runs, update_cleaner,
}
use autoscaler.Cleanup.Sweep.Goroutine.{
  Pass, adding_cancelled, adding_deleted, cancelling, deleting, found_of, given_up, inspect_step,
  inspecting_runs, list_step, listing_ghosts, pass_step, reporting, search_step, searching,
}
use autoscaler.Common.{
  Bool-cases, List, Option-cases, [], any, arith, if◌then◌else◌, inl, inr, map, refl, subst, suc,
  sym, ℤ, ◌++◌, ◌+◌, ◌∷◌, ◌≡◌,
}
use autoscaler.Config.{RepoConfig}
use autoscaler.Env.{Env}
use autoscaler.Text.{codes, decimal}
use autoscaler.World.{Fallible, Fallible-cases, Machine, Spawner, err, increment, ok}

-- Where a result leaves a goroutine.
abbrev pub landed : Fallible RepoResult → Pass
landed (ok r) = reporting r
landed (err x) = given_up x

module _ (e : Env) (sp : Spawner) (repo : RepoConfig) where
  -- The steps of one goroutine, with nobody else between them.
  pub data Alone (start : Pass × Machine) : Pass × Machine → Type 0 where
    at_start : Alone start start
    advances : {p : Pass × Machine} → Alone start p → Alone start (pass_step e sp repo p.0 p.1)

  joined : {p q r : Pass × Machine} → Alone p q → Alone q r → Alone p r
  joined a at_start = a
  joined a (advances b) = advances (joined a b)

  -- One step, by its result, and what follows.
  after_step :
      (p : Pass) (m : Machine) (q r : Pass × Machine)
      → pass_step e sp repo p m ≡ q
      → Alone q r
      → Alone (p, m) r
  after_step p m q r stepped a = joined (advances at_start) (subst (λ x. Alone x r) (sym stepped) a)

  lands : {p q r : Pass × Machine} → q ≡ r → Alone p q → Alone p r
  lands {p} same a = subst (Alone p) same a

  abbrev Deleted : List GhostRunner → RepoResult → Machine → Pass × Machine
  Deleted gs r m =
      let d = delete_ghosts e sp repo gs m in
      (
        reporting (record r { deleted = r.deleted + d.0.0; still_stuck = r.still_stuck + d.0.1 }),
        d.1,
      )

  abbrev one_deleted : RepoResult → RepoResult
  one_deleted r = record r { deleted = suc r.deleted }

  abbrev one_stuck : RepoResult → RepoResult
  one_stuck r = record r { still_stuck = suc r.still_stuck }

  abbrev deletion_counted : Machine → Machine
  deletion_counted m =
      (update_cleaner (λ c. record c { ghosts_deleted = increment c.ghosts_deleted }) m).1

  deleting-Alone :
      (gs : List GhostRunner) (r : RepoResult) (m : Machine)
      → Alone (deleting gs r, m) (Deleted gs r m)
  unfolding pass_step delete_ghosts
  deleting-Alone [] r m = after_step (deleting [] r) m _ _ (ground arith) at_start
  deleting-Alone (g ∷ gs) r m =
      let answer = delete_runner e sp repo g.id m in
      elim (Bool-cases answer.0) [
        | inl succeeded ↦
            after_step (deleting (g ∷ gs) r) m (adding_deleted gs r, answer.1) _
              (ground (arith, succeeded))
              (after_step (adding_deleted gs r) answer.1 _ _ refl (
                lands (ground (arith, succeeded))
                  (deleting-Alone gs (one_deleted r) (deletion_counted answer.1))))
        | inr refused_by ↦
            after_step (deleting (g ∷ gs) r) m (deleting gs (one_stuck r), answer.1) _
              (ground (arith, refused_by))
              (lands (ground (arith, refused_by)) (deleting-Alone gs (one_stuck r) answer.1))
      ]

  abbrev one_cancelled : RepoResult → RepoResult
  one_cancelled r = record r { cancelled = suc r.cancelled }

  abbrev cancellation_counted : Machine → Machine
  cancellation_counted m =
      (update_cleaner (λ c. record c { runs_cancelled = increment c.runs_cancelled }) m).1

  -- Behind the loop that cancels.
  abbrev Cancelled : List GhostRunner → List ℤ → RepoResult → Machine → Pass × Machine
  Cancelled gs ids r m =
      let d = cancel_runs e sp repo ids m in
      (deleting gs (record r { cancelled = r.cancelled + d.0 }), d.1)

  cancelling-Alone :
      (gs : List GhostRunner) (ids : List ℤ) (r : RepoResult) (m : Machine)
      → Alone (cancelling gs ids r, m) (Cancelled gs ids r m)
  unfolding pass_step cancel_runs
  cancelling-Alone gs [] r m = after_step (cancelling gs [] r) m _ _ (ground arith) at_start
  cancelling-Alone gs (id ∷ ids) r m =
      let answer = force_cancel_run e sp repo id m in
      elim (Bool-cases answer.0) [
        | inl succeeded ↦
            after_step (cancelling gs (id ∷ ids) r) m (adding_cancelled gs ids r, answer.1) _
              (ground (arith, succeeded))
              (after_step (adding_cancelled gs ids r) answer.1 _ _ refl (
                lands (ground (arith, succeeded))
                  (cancelling-Alone gs ids (one_cancelled r) (cancellation_counted answer.1))))
        | inr refused_by ↦
            after_step (cancelling gs (id ∷ ids) r) m (cancelling gs ids r, answer.1) _
              (ground (arith, refused_by))
              (lands (ground (arith, refused_by)) (cancelling-Alone gs ids r answer.1))
      ]

  -- Behind the loop over the runs: Go then ranges over the map in an order of its own.
  abbrev Inspected : List GhostRunner → List ℤ → List ℤ → Machine → Pass × Machine
  Inspected gs ids stuck m =
      let d = stuck_runs e sp repo (map (λ g. g.name) gs) ids stuck m in
      (cancelling gs (e.map_order d.1.trace d.0) (found_of gs), d.1)

  inspecting-Alone :
      (gs : List GhostRunner) (ids stuck : List ℤ) (m : Machine)
      → Alone (inspecting_runs gs ids stuck, m) (Inspected gs ids stuck m)
  unfolding pass_step inspect_step stuck_runs
  inspecting-Alone gs [] stuck m = after_step (inspecting_runs gs [] stuck) m _ _ refl at_start
  inspecting-Alone gs (id ∷ ids) stuck m =
      let url =
        repo_url_of e sp repo
          (codes "/actions/runs/" ++ (decimal id ++ codes "/jobs?per_page=100")) in
      let body = cleaner_get e sp url m in
      elim (Fallible-cases body.0) [
        | inl (b, answered) ↦
            let stuck' =
              if any (is_stuck_job (map (λ g. g.name) gs)) (e.running_page b).0
              then insert_id id stuck
              else stuck in
            after_step (inspecting_runs gs (id ∷ ids) stuck) m
              (inspecting_runs gs ids stuck', body.1) _ (ground (arith, answered))
              (lands (ground (arith, answered)) (inspecting-Alone gs ids stuck' body.1))
        | inr (x, lost) ↦
            after_step (inspecting_runs gs (id ∷ ids) stuck) m
              (inspecting_runs gs ids stuck, body.1) _ (ground (arith, lost))
              (lands (ground (arith, lost)) (inspecting-Alone gs ids stuck body.1))
      ]

  -- Behind `runIDsForGhosts` and the loop that cancels.
  abbrev Searched : List GhostRunner → Machine → Pass × Machine
  Searched gs m =
      let d = cancel_stuck e sp repo gs m in
      (deleting gs (record (found_of gs) { cancelled = d.0 }), d.1)

  searching-Alone : (gs : List GhostRunner) (m : Machine) → Alone (searching gs, m) (Searched gs m)
  unfolding pass_step search_step cancel_stuck run_ids_for_ghosts
  searching-Alone gs m =
      let body =
        cleaner_get e sp
          (repo_url_of e sp repo (codes "/actions/runs?status=in_progress&per_page=100")) m in
      elim (Fallible-cases body.0) [
        | inr (x, lost) ↦
            after_step (searching gs) m (deleting gs (found_of gs), body.1) _ (ground (arith, lost))
              (lands (ground (arith, lost)) at_start)
        | inl (b, answered) ↦ elim (Option-cases (e.run_page b).1) [
          | inr (x, broken) ↦
              after_step (searching gs) m (deleting gs (found_of gs), body.1) _
                (ground (arith, answered, broken))
                (lands (ground (arith, answered, broken)) at_start)
          | inl whole ↦
              let ids = (e.run_page b).0 in
              let stuck = stuck_runs e sp repo (map (λ g. g.name) gs) ids [] body.1 in
              after_step (searching gs) m (inspecting_runs gs ids [], body.1) _
                (ground (arith, answered, whole))
                (joined (inspecting-Alone gs ids [] body.1) (
                  lands (ground (arith, answered, whole)) (
                    cancelling-Alone gs (e.map_order stuck.1.trace stuck.0) (found_of gs) stuck.1)))
        ]
      ]

  -- A goroutine that runs alone, a request or a counter at a time, comes with the result of
  -- cleanupRepo to the point where it adds that to the summary, or ends there with the error, and
  -- leaves the world and the counters as cleanupRepo does.
  pub cleanup_repo-Alone :
      (m : Machine)
      → let r = cleanup_repo e sp repo m in Alone (listing_ghosts, m) (landed r.0, r.1)
  unfolding pass_step list_step cleanup_repo
  cleanup_repo-Alone m =
      let listed = list_ghost_runners e sp repo m in
      elim (Fallible-cases listed.0) [
        | inl ([], answered) ↦
            after_step listing_ghosts m (reporting no_result, listed.1) _ (ground (arith, answered))
              (lands (ground (arith, answered)) at_start)
        | inl (g ∷ gs, answered) ↦
            let cancelled = cancel_stuck e sp repo (g ∷ gs) listed.1 in
            after_step listing_ghosts m (searching (g ∷ gs), listed.1) _ (ground (arith, answered))
              (joined (searching-Alone (g ∷ gs) listed.1) (
                lands (ground (arith, answered)) (
                  deleting-Alone (g ∷ gs) (record (found_of (g ∷ gs)) { cancelled = cancelled.0 })
                    cancelled.1)))
        | inr (x, lost) ↦
            after_step listing_ghosts m (given_up (codes "list ghosts: " ++ x), listed.1) _
              (ground (arith, lost)) (lands (ground (arith, lost)) at_start)
      ]
