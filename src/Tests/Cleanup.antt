-- ===== src/Tests/Cleanup.antt =====
-- Runs of internal/cleanup, and its theorems at a small GitHub and a small host.
use autoscaler.Cleanup.{
  LocalContainer, Registered, cancel_runs, cancel_stuck, cleaner_get, cleanup_repo, container_age,
  default_local_grace, delete_ghosts, delete_runner, force_cancel_run, ghosts_of, is_ghost,
  list_ghost_runners, list_managed_containers, names_of, reap_all, reap_one, remove_container,
  run_ids_for_ghosts, stuck_runs, tick_with_summary,
}
use autoscaler.Cleanup.Counts.{PassDone, cleanup_repo-PassDone}
use autoscaler.Cleanup.Listing.{list_managed-printed}
use autoscaler.Cleanup.Names.{IsName, runner_name-IsName}
use autoscaler.Cleanup.Reaping.{Reaping, Round, reap_all-Reaping, reap_one-Round}
use autoscaler.Cleanup.Ticks.{Reported, tick-Reported}
use autoscaler.Common.{
  [], arith, false, if◌then◌else◌, none, not, pos, refl, some, true, ℤ, ◌∷◌, ◌≡◌,
}
use autoscaler.Env.{Env, ListedRunner}
use autoscaler.Spawner.{count_runner, inspect_args, no_counts, runner_name}
use autoscaler.Tests.World.{backend, deps, fine, fresh, page, world}
use autoscaler.Text.{Bytes, bytes_eq, codes, has_prefix}
use autoscaler.World.{delete, get, ok, post}

-- A GitHub with one ghost, one runner that is online and one that another tool made.
abbrev runner : ℤ → Bytes → Bytes → ListedRunner
runner id name status = record { id = id; name = name; status = status; busy = false }

abbrev pub ghostly_world : Env
ghostly_world = record world {
  do_http = λ t req. ok (page (elim req.method [ delete ↦ 204 | get ↦ 200 | post ↦ 202 ]));
  runner_page = λ b. (
    runner (pos 4) (codes "auto-a-b-1") (codes "offline")
        ∷ runner (pos 5) (codes "auto-a-b-2") (codes "online")
        ∷ runner (pos 6) (codes "other") (codes "offline")
        ∷ [],
    none,
  );
  run_page = λ b. (pos 7 ∷ [], none);
  running_page =
      λ b. (record { status = codes "in_progress"; runner_name = codes "auto-a-b-1" } ∷ [], none);
}

cleanup_repo-PassDone_example :
    PassDone ghostly_world deps backend fresh (cleanup_repo ghostly_world deps backend fresh)
cleanup_repo-PassDone_example =
    cleanup_repo-PassDone ghostly_world deps backend fresh (omega arith) (omega arith)

one_ghost :
    (cleanup_repo ghostly_world deps backend fresh).0
    ≡ ok (record { found = 1; cancelled = 1; deleted = 1; still_stuck = 0 })
unfolding cleanup_repo list_ghost_runners ghosts_of cleaner_get cancel_stuck run_ids_for_ghosts
    stuck_runs cancel_runs force_cancel_run delete_ghosts delete_runner has_prefix
one_ghost = refl

-- A container that runs, is not registered and is one hour old.
abbrev orphan : LocalContainer
orphan = record {
  id = codes "c1";
  name = codes "auto-a-b-9";
  repo = codes "a/b";
  state = codes "running";
}

abbrev hour : ℤ
hour = pos 3600000000000

abbrev aging_world : Env
aging_world = record world { now = λ t. hour; rfc3339 = λ s. some (pos 0) }

abbrev known : Registered
known = (codes "a/b", codes "auto-a-b-1" ∷ []) ∷ []

reap_one-Round_example :
    Round aging_world deps default_local_grace known orphan fresh
      (reap_one aging_world deps default_local_grace known orphan fresh)
reap_one-Round_example =
    reap_one-Round aging_world deps default_local_grace known orphan fresh (omega arith)

orphan_reaped : (reap_one aging_world deps default_local_grace known orphan fresh).0 ≡ true
unfolding reap_one names_of container_age remove_container
orphan_reaped = refl

reap_all-Reaping_example :
    Reaping aging_world deps known
      (orphan ∷ [])
      fresh
      (reap_all aging_world deps default_local_grace known (orphan ∷ []) fresh)
reap_all-Reaping_example =
    reap_all-Reaping aging_world deps default_local_grace known (orphan ∷ []) fresh (omega arith)

tick-Reported_example :
    Reported ghostly_world deps
      (backend ∷ [])
      fresh
      (tick_with_summary ghostly_world deps (backend ∷ []) (backend ∷ []) fresh)
tick-Reported_example =
    tick-Reported ghostly_world deps (backend ∷ []) (backend ∷ []) fresh (omega arith) (omega arith)
      (omega arith)

-- A host that lists one container, in the state running.
abbrev one_container : Env
one_container = record world {
  run_docker = λ t args. fine (
      if bytes_eq (elim args [ [] ↦ [] | a ∷ rest ↦ a ]) (codes "ps")
      then codes "c1|auto-a-b-9|a/b\n"
      else codes "running\n");
}

list_managed-printed_example :
    (list_managed_containers one_container deps fresh).0 ≡ ok (orphan ∷ [])
unfolding inspect_args
list_managed-printed_example =
    list_managed-printed one_container deps fresh orphan []
      (
        (λ h. cc, ground arith),
        (λ h. cc, ground arith),
        (λ h. cc, ground arith),
        (λ h. cc, ground arith),
        ground arith,
        ground arith,
      )
      tt refl refl refl refl

runner_name-IsName_example :
    let name = runner_name backend (1 ∷ 171 ∷ []) in
    IsName name
    × (has_prefix name (codes "auto-") ≡ true)
    × (is_ghost (record { id = pos 1; name = name; status = codes "offline"; busy = false })
        ≡ not (bytes_eq (codes "offline") (codes "online")))
    × (count_runner no_counts (record { name = name; status = codes "offline"; busy = false })
        ≡ record no_counts { ghost = 1 })
runner_name-IsName_example =
    runner_name-IsName backend (1 ∷ 171 ∷ []) (pos 1) (codes "offline") false no_counts
      (omega arith, (omega arith, tt))
