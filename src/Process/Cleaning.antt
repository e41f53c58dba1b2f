-- ===== src/Process/Cleaning.antt =====
-- internal/cleanup/cleanup.go: the pass over the runners, under an invariant of the process.
use autoscaler.Cleanup.{
  GhostRunner, cancel_runs, cancel_stuck, cleaner_get, cleanup_repo, delete_ghosts, delete_runner,
  force_cancel_run, insert_id, list_ghost_runners, run_ids_for_ghosts, stuck_runs,
}
use autoscaler.Common.{List, [], arith, inl, inr, map, refl, ℤ, ◌++◌, ◌∷◌, ◌≡◌}
use autoscaler.Config.{RepoConfig}
use autoscaler.Env.{Env}
use autoscaler.Process.Keeps.{
  Holds, Invariant, IsSource, Keeps, accepted, cancel_request, delete_request, jobs_at, no_content,
  repo_url, runners_at, runs_at,
}
use autoscaler.Spawner.{signed_headers}
use autoscaler.Text.{Bytes, codes, decimal}
use autoscaler.World.{Fallible-cases, Machine, Spawner, get, http_do, increment}

module _ (e : Env) (sp : Spawner) (relay : Bytes) (Own : RepoConfig → Type 0) (P : Invariant)
    (k : Keeps e sp relay Own P) where
  pub get-Holds :
      (url : Bytes) (m : Machine)
      → IsSource sp Own url
      → Holds P m
      → Holds P (cleaner_get e sp url m).1
  unfolding cleaner_get
  get-Holds url m known h =
      let a = e.do_http m.trace (record { method = get; url = url; headers = signed_headers sp }) in
      ground (arith, k.fetches url (signed_headers sp) a m.trace m.spawner m.cleaner known h)

  ghosts-Holds :
      (repo : RepoConfig) (m : Machine)
      → Own repo
      → Holds P m
      → Holds P (list_ghost_runners e sp repo m).1
  unfolding list_ghost_runners
  ghosts-Holds repo m own h =
      let url = repo_url sp repo.name (codes "/actions/runners?per_page=100") in
      ground (arith, get-Holds url m (runners_at repo own refl) h)

  stuck_runs-Holds :
      (repo : RepoConfig) (names : List Bytes) (ids stuck : List ℤ) (m : Machine)
      → Own repo
      → Holds P m
      → Holds P (stuck_runs e sp repo names ids stuck m).1
  unfolding stuck_runs
  stuck_runs-Holds repo names [] stuck m own h = h
  stuck_runs-Holds repo names (id ∷ ids) stuck m own h =
      let url =
        repo_url sp repo.name
          (codes "/actions/runs/" ++ (decimal id ++ codes "/jobs?per_page=100")) in
      let asked = (cleaner_get e sp url m).1 in
      let one = get-Holds url m (jobs_at repo id own refl) h in
      ground (
        arith,
        one,
        stuck_runs-Holds repo names ids stuck asked own,
        stuck_runs-Holds repo names ids (insert_id id stuck) asked own,
      )

  run_ids-Holds :
      (repo : RepoConfig) (ghosts : List GhostRunner) (m : Machine)
      → Own repo
      → Holds P m
      → Holds P (run_ids_for_ghosts e sp repo ghosts m).1
  unfolding run_ids_for_ghosts
  run_ids-Holds repo ghosts m own h =
      let url = repo_url sp repo.name (codes "/actions/runs?status=in_progress&per_page=100") in
      let listed = cleaner_get e sp url m in
      let one =
        get-Holds url m
          (runs_at repo (codes "in_progress") (codes "100") own (inr refl) (inr refl) refl) h in
      elim (Fallible-cases listed.0) [
        | inr (x, failed) ↦ ground (arith, failed, one)
        | inl (b, there) ↦ ground (
          arith,
          there,
          one,
          stuck_runs-Holds repo (map (λ g. g.name) ghosts) (e.run_page b).0 [] listed.1 own,
        )
      ]

  force_cancel_lem :
      (repo : RepoConfig) (id : ℤ) (m : Machine)
      → let a = e.do_http m.trace (cancel_request sp repo.name id) in
        force_cancel_run e sp repo id m
        ≡ (accepted a, record m { trace = http_do (cancel_request sp repo.name id) a ∷ m.trace })
  unfolding force_cancel_run
  force_cancel_lem repo id m = ground arith

  cancel_runs-Holds :
      (repo : RepoConfig) (ids : List ℤ) (m : Machine)
      → Own repo
      → Holds P m
      → Holds P (cancel_runs e sp repo ids m).1
  unfolding cancel_runs
  cancel_runs-Holds repo [] m own h = h
  cancel_runs-Holds repo (id ∷ ids) m own h =
      let req = cancel_request sp repo.name id in
      let a = e.do_http m.trace req in
      let asked = record m { trace = http_do req a ∷ m.trace } in
      let counted = record asked {
        cleaner = record (m.cleaner) { runs_cancelled = increment m.cleaner.runs_cancelled };
      } in
      ground (
        arith,
        force_cancel_lem repo id m,
        k.cancels repo id a m.trace m.spawner m.cleaner own h,
        cancel_runs-Holds repo ids asked own,
        cancel_runs-Holds repo ids counted own,
      )

  delete_runner_lem :
      (repo : RepoConfig) (id : ℤ) (m : Machine)
      → let a = e.do_http m.trace (delete_request sp repo.name id) in
        delete_runner e sp repo id m
        ≡ (no_content a, record m { trace = http_do (delete_request sp repo.name id) a ∷ m.trace })
  unfolding delete_runner
  delete_runner_lem repo id m = ground arith

  delete_ghosts-Holds :
      (repo : RepoConfig) (gs : List GhostRunner) (m : Machine)
      → Own repo
      → Holds P m
      → Holds P (delete_ghosts e sp repo gs m).1
  unfolding delete_ghosts
  delete_ghosts-Holds repo [] m own h = h
  delete_ghosts-Holds repo (g ∷ gs) m own h =
      let req = delete_request sp repo.name g.id in
      let a = e.do_http m.trace req in
      let asked = record m { trace = http_do req a ∷ m.trace } in
      let counted = record asked {
        cleaner = record (m.cleaner) { ghosts_deleted = increment m.cleaner.ghosts_deleted };
      } in
      ground (
        arith,
        delete_runner_lem repo g.id m,
        k.deletes repo g.id a m.trace m.spawner m.cleaner own h,
        delete_ghosts-Holds repo gs asked own,
        delete_ghosts-Holds repo gs counted own,
      )

  cancel_stuck-Holds :
      (repo : RepoConfig) (gs : List GhostRunner) (m : Machine)
      → Own repo
      → Holds P m
      → Holds P (cancel_stuck e sp repo gs m).1
  unfolding cancel_stuck
  cancel_stuck-Holds repo gs m own h = grind (arith, run_ids-Holds repo, cancel_runs-Holds repo)

  pub cleanup_repo-Holds :
      (repo : RepoConfig) (m : Machine)
      → Own repo
      → Holds P m
      → Holds P (cleanup_repo e sp repo m).1
  unfolding cleanup_repo
  cleanup_repo-Holds repo m own h =
      grind (arith, ghosts-Holds repo, cancel_stuck-Holds repo, delete_ghosts-Holds repo)
