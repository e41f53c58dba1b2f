-- ===== src/Cleanup/Ticks.antt =====
-- internal/cleanup/cleanup.go: a whole tick, its summary and the lifetime counters.
use autoscaler.Cleanup.{
  Registered, RepoResult, add_result, clean_repos, cleaner_get, cleanup_repo, grace_of,
  last_summary_of, list_all_runner_names, list_args, list_managed_containers, no_summary_yet,
  parse_lines, reap_local_ghosts, registered_names, repo_url_of, tick_with_summary, with_totals,
}
use autoscaler.Cleanup.Counts.{PassDone, cleanup_repo-PassDone}
use autoscaler.Cleanup.Reaping.{Idle, reap_all-Reaping, rm_target}
use autoscaler.Cleanup.Repo.{Moved}
use autoscaler.Common.{
  List, [], arith, inl, inr, length, map, none, refl, subst, ℕ, ◌+◌, ◌<◌, ◌^◌, ◌∷◌, ◌≡◌,
}
use autoscaler.Config.{RepoConfig}
use autoscaler.Env.{Env, exec_docker}
use autoscaler.Spawner.{inspect_args}
use autoscaler.Text.{Bytes, codes, split, trim_space}
use autoscaler.World.{Fallible-cases, Machine, Spawner, Summary, err, ok}

module _ (e : Env) (sp : Spawner) where
  cleaner_get-Idle : (url : Bytes) (m : Machine) → Idle e sp m (cleaner_get e sp url m).1
  unfolding cleaner_get
  cleaner_get-Idle url m = ground arith

  list_names-Idle :
      (repo : RepoConfig) (m : Machine) → Idle e sp m (list_all_runner_names e sp repo m).1
  unfolding list_all_runner_names
  list_names-Idle repo m =
      ground
        (arith, cleaner_get-Idle (repo_url_of e sp repo (codes "/actions/runners?per_page=100")) m)

  registered-Idle :
      (repos : List RepoConfig) (known : Registered) (m : Machine)
      → Idle e sp m (registered_names e sp repos known m).1
  unfolding registered_names
  registered-Idle [] known m = ground arith
  registered-Idle (repo ∷ repos) known m =
      let names = list_all_runner_names e sp repo m in
      elim (Fallible-cases names.0) [
        | inl (l, answered) ↦ ground (
          arith,
          answered,
          list_names-Idle repo m,
          registered-Idle repos ((repo.name, l) ∷ known) names.1,
        )
        | inr (x, failed) ↦
            ground (arith, failed, list_names-Idle repo m, registered-Idle repos known names.1)
      ]

  inspect_lem : (ids : List Bytes) → rm_target (inspect_args ids) ≡ none
  unfolding inspect_args
  inspect_lem [] = refl
  inspect_lem (a ∷ []) = refl
  inspect_lem (a ∷ b ∷ ids) = refl

  list_managed-Idle : (m : Machine) → Idle e sp m (list_managed_containers e sp m).1
  unfolding list_managed_containers
  list_managed-Idle m = ground (
    arith,
    inspect_lem (
        map (λ l. l.id)
          (parse_lines (split (trim_space (exec_docker e list_args m).0.stdout) b'\n'))),
  )

  -- The pass over the host moves the counter of reaped containers by its result, and no other.
  abbrev Counted : Machine → ℕ × Machine → Type 0
  Counted m r =
      Moved r.0 m.cleaner.local_ghosts_reaped r.1.cleaner.local_ghosts_reaped
      × (r.1.cleaner.ghosts_deleted ≡ m.cleaner.ghosts_deleted)
      × (r.1.cleaner.runs_cancelled ≡ m.cleaner.runs_cancelled)

  reap_local_lem :
      (repos : List RepoConfig) (m : Machine)
      → m.cleaner.local_ghosts_reaped < 2 ^ 64
      → Counted m (reap_local_ghosts e sp repos m)
  unfolding reap_local_ghosts
  reap_local_lem repos m h =
      let listed = list_managed_containers e sp m in
      let known = registered_names e sp repos [] listed.1 in
      elim (Fallible-cases listed.0) [
        | inl ([], answered) ↦ ground (arith, answered, list_managed-Idle m)
        | inl (c ∷ cs, answered) ↦ ground (
          arith,
          answered,
          list_managed-Idle m,
          registered-Idle repos [] listed.1,
          reap_all-Reaping e sp (grace_of e sp known.1) known.0 (c ∷ cs) known.1,
        )
        | inr (x, failed) ↦ ground (arith, failed, list_managed-Idle m)
      ]

  -- The summary so far, against the counters at the start of the tick.
  abbrev Balanced : Machine → Summary → Machine → Type 0
  Balanced start s m =
      (s.ghosts_found ≡ s.ghosts_deleted + s.ghosts_still_stuck)
      × Moved s.ghosts_deleted start.cleaner.ghosts_deleted m.cleaner.ghosts_deleted
      × Moved s.runs_cancelled start.cleaner.runs_cancelled m.cleaner.runs_cancelled
      × (m.cleaner.local_ghosts_reaped ≡ start.cleaner.local_ghosts_reaped)

  -- A pass whose result was added keeps the balance; so does one that failed.
  balanced_lem :
      (start : Machine) (repo : RepoConfig) (s : Summary) (m : Machine) (res : RepoResult)
      → (cleanup_repo e sp repo m).0 ≡ ok res
      → Balanced start s m
      → Balanced start (add_result s res) (cleanup_repo e sp repo m).1
  unfolding add_result
  balanced_lem start repo s m res answered b =
      let pass =
        subst (λ f. PassDone e sp repo m (f, (cleanup_repo e sp repo m).1)) answered
          (cleanup_repo-PassDone e sp repo m (ground arith) (ground arith)) in
      ground arith

  failed_lem :
      (start : Machine) (repo : RepoConfig) (s : Summary) (m : Machine) (x : Bytes)
      → (cleanup_repo e sp repo m).0 ≡ err x
      → Balanced start s m
      → Balanced start s (cleanup_repo e sp repo m).1
  failed_lem start repo s m x failed b =
      let pass =
        subst (λ f. PassDone e sp repo m (f, (cleanup_repo e sp repo m).1)) failed
          (cleanup_repo-PassDone e sp repo m (ground arith) (ground arith)) in
      ground arith

  clean_repos-Balanced :
      (start : Machine) (repos : List RepoConfig) (s : Summary) (m : Machine)
      → Balanced start s m
      → let r = clean_repos e sp repos s m in Balanced start r.0 r.1 × (r.0.repos ≡ s.repos)
  unfolding clean_repos add_result
  clean_repos-Balanced start [] s m b = (b, refl)
  clean_repos-Balanced start (repo ∷ repos) s m b =
      let pass = cleanup_repo e sp repo m in
      elim (Fallible-cases pass.0) [
        | inl (res, answered) ↦ ground (
          arith,
          answered,
          clean_repos-Balanced start repos (add_result s res) pass.1
              (balanced_lem start repo s m res answered b),
        )
        | inr (x, failed) ↦ ground (
          arith,
          failed,
          clean_repos-Balanced start repos s pass.1 (failed_lem start repo s m x failed b),
        )
      ]

  -- What a tick reports: the ghosts found are those deleted and those still stuck; the lifetime
  -- counters moved by the numbers of the report, which also shows them; and the report is kept.
  abbrev pub Reported : List RepoConfig → Machine → Summary × Machine → Type 0
  Reported repos m r =
      (r.0.repos ≡ length repos)
      × (r.0.ghosts_found ≡ r.0.ghosts_deleted + r.0.ghosts_still_stuck)
      × Moved r.0.ghosts_deleted m.cleaner.ghosts_deleted r.1.cleaner.ghosts_deleted
      × Moved r.0.runs_cancelled m.cleaner.runs_cancelled r.1.cleaner.runs_cancelled
      × Moved r.0.local_ghosts_reaped m.cleaner.local_ghosts_reaped r.1.cleaner.local_ghosts_reaped
      × (r.0.total_ghosts_deleted ≡ r.1.cleaner.ghosts_deleted)
      × (r.0.total_runs_cancelled ≡ r.1.cleaner.runs_cancelled)
      × (r.0.total_local_ghosts_reaped ≡ r.1.cleaner.local_ghosts_reaped)
      × ((last_summary_of r.1).0 ≡ r.0)

  -- A tick's summary counts the repositories, and its ghosts found are those deleted and those
  -- still stuck. Over the tick each lifetime counter moves by the summary's number for it, modulo
  -- 2 ^ 64; the summary shows the counters at its end; and LastSummary then returns that summary.
  -- This holds in whatever order the repositories are worked off. The counters are below 2 ^ 64 at
  -- the start.
  pub tick-Reported :
      (repos order : List RepoConfig) (m : Machine)
      → m.cleaner.ghosts_deleted < 2 ^ 64
      → m.cleaner.runs_cancelled < 2 ^ 64
      → m.cleaner.local_ghosts_reaped < 2 ^ 64
      → Reported repos m (tick_with_summary e sp repos order m)
  unfolding tick_with_summary with_totals last_summary_of
  tick-Reported repos order m h k l =
      let phase_a = clean_repos e sp order (no_summary_yet (length repos)) m in
      ground (
        arith,
        clean_repos-Balanced m order (no_summary_yet (length repos)) m (ground arith),
        reap_local_lem repos phase_a.1,
      )
