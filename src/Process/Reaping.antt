-- ===== src/Process/Reaping.antt =====
-- internal/cleanup/cleanup.go: the pass over the containers of the host and the tick, under an
-- invariant of the process.
use autoscaler.Cleanup.{
  LocalContainer, Registered, clean_repos, container_age, created_args, list_all_runner_names,
  list_args, list_managed_containers, parse_lines, reap_all, reap_local_ghosts, reap_one,
  registered_names, remove_container, rm_args, tick_with_summary,
}
use autoscaler.Common.{All, List, [], arith, map, refl, ℤ, ◌∷◌}
use autoscaler.Config.{RepoConfig}
use autoscaler.Env.{Env}
use autoscaler.Process.Cleaning.{cleanup_repo-Holds, get-Holds}
use autoscaler.Process.Keeps.{
  Holds, Invariant, Keeps, asks_created, asks_state, lists_all, repo_url, runners_at,
}
use autoscaler.Spawner.{inspect_args}
use autoscaler.Text.{Bytes, codes, split, trim_space}
use autoscaler.World.{Machine, Spawner, Summary, docker}

module _ (e : Env) (sp : Spawner) (relay : Bytes) (Own : RepoConfig → Type 0) (P : Invariant)
    (k : Keeps e sp relay Own P) where
  containers-Holds : (m : Machine) → Holds P m → Holds P (list_managed_containers e sp m).1
  unfolding list_managed_containers
  containers-Holds m h =
      let a = e.run_docker m.trace list_args in
      let ids =
        map (λ (l : LocalContainer). l.id) (parse_lines (split (trim_space a.stdout) b'\n')) in
      let listed = docker list_args a ∷ m.trace in
      let b = e.run_docker listed (inspect_args ids) in
      let one = k.commands list_args a m.trace m.spawner m.cleaner (lists_all refl) h in
      let two =
        k.commands (inspect_args ids) b listed m.spawner m.cleaner (asks_state ids refl) one in
      ground (arith, one, two)

  container_age-Holds : (id : Bytes) (m : Machine) → Holds P m → Holds P (container_age e sp id m).1
  unfolding container_age
  container_age-Holds id m h =
      let a = e.run_docker m.trace (created_args id) in
      let asked = docker (created_args id) a ∷ m.trace in
      let one =
        k.commands (created_args id) a m.trace m.spawner m.cleaner (asks_created id refl) h in
      ground (arith, one, k.reads_clock (e.now asked) asked m.spawner m.cleaner one)

  runner_names-Holds :
      (repo : RepoConfig) (m : Machine)
      → Own repo
      → Holds P m
      → Holds P (list_all_runner_names e sp repo m).1
  unfolding list_all_runner_names
  runner_names-Holds repo m own h =
      let url = repo_url sp repo.name (codes "/actions/runners?per_page=100") in
      ground (arith, get-Holds e sp relay Own P k url m (runners_at repo own refl) h)

  registered_names-Holds :
      (repos : List RepoConfig) (known : Registered) (m : Machine)
      → All Own repos
      → Holds P m
      → Holds P (registered_names e sp repos known m).1
  unfolding registered_names
  registered_names-Holds [] known m own h = h
  registered_names-Holds (repo ∷ repos) known m (own, others) h =
      grind (arith, runner_names-Holds repo, registered_names-Holds repos)

  remove_container-Holds :
      (lc : LocalContainer) (m : Machine) → Holds P m → Holds P (remove_container e sp lc m).1
  unfolding remove_container
  remove_container-Holds lc m h =
      let a = e.run_docker m.trace (rm_args lc.id) in
      ground (arith, k.removes lc.id a m.trace m.spawner m.cleaner h)

  reap_one-Holds :
      (grace : ℤ) (known : Registered) (lc : LocalContainer) (m : Machine)
      → Holds P m
      → Holds P (reap_one e sp grace known lc m).1
  unfolding reap_one
  reap_one-Holds grace known lc m h = grind (arith, remove_container-Holds, container_age-Holds)

  reap_all-Holds :
      (grace : ℤ) (known : Registered) (lcs : List LocalContainer) (m : Machine)
      → Holds P m
      → Holds P (reap_all e sp grace known lcs m).1
  unfolding reap_all
  reap_all-Holds grace known [] m h = h
  reap_all-Holds grace known (lc ∷ lcs) m h =
      grind (arith, reap_one-Holds, reap_all-Holds grace known lcs)

  reap_local_ghosts-Holds :
      (repos : List RepoConfig) (m : Machine)
      → All Own repos
      → Holds P m
      → Holds P (reap_local_ghosts e sp repos m).1
  unfolding reap_local_ghosts
  reap_local_ghosts-Holds repos m own h =
      grind (arith, containers-Holds, registered_names-Holds repos, reap_all-Holds)

  clean_repos-Holds :
      (repos : List RepoConfig) (s : Summary) (m : Machine)
      → All Own repos
      → Holds P m
      → Holds P (clean_repos e sp repos s m).1
  unfolding clean_repos
  clean_repos-Holds [] s m own h = h
  clean_repos-Holds (repo ∷ repos) s m (own, others) h =
      grind (arith, cleanup_repo-Holds e sp relay Own P k repo, clean_repos-Holds repos)

  pub tick_with_summary-Holds :
      (repos order : List RepoConfig) (m : Machine)
      → All Own repos
      → All Own order
      → Holds P m
      → Holds P (tick_with_summary e sp repos order m).1
  unfolding tick_with_summary
  tick_with_summary-Holds repos order m own own_order h =
      grind (arith, clean_repos-Holds order, reap_local_ghosts-Holds repos, k.summarises)
