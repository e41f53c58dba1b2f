-- ===== src/Tests/Portal.antt =====
-- Runs of internal/portal, and its theorems at small requests.
use autoscaler.Common.{[], false, none, pos, refl, true, ◌∷◌, ◌≡◌}
use autoscaler.Env.{Env}
use autoscaler.Portal.{
  ContainerState, PortalRequest, collect_repo_state, collect_state, container_states, handle_stop,
  list_live_ephemerals, query_run_count,
}
use autoscaler.Portal.Stopping.{Stops, handle_stop-Stops}
use autoscaler.Portal.Whole.{Whole, collect_state-Whole}
use autoscaler.Spawner.{
  count_lines, count_runner, count_runners, count_running, count_running_or_zero, inspect_args,
  ps_args, repo_runner_counts,
}
use autoscaler.Tests.World.{backend, deps, fine, fresh, world}
use autoscaler.Text.{Bytes, codes, fields, has_prefix, split, split_n, trim_space}
use autoscaler.World.{ok}

abbrev post_named : Bytes → PortalRequest
post_named name = record {
  path = codes "/api/stop";
  is_post = true;
  authorization = codes "Bearer t0";
  cookie = none;
  name = name;
  repo = [];
}

handle_stop-Stops_example :
    Stops world
      (post_named (codes "auto-x"))
      fresh
      (handle_stop world (post_named (codes "auto-x")) fresh)
handle_stop-Stops_example = handle_stop-Stops world (post_named (codes "auto-x")) fresh

abbrev listed_one : ContainerState
listed_one = record { name = codes "auto-1"; repo = codes "a/b"; busy = false }

abbrev lists_one : Env
lists_one = record world { run_docker = λ t args. fine (codes "auto-1\ta/b\n") }

one_live : (list_live_ephemerals lists_one deps fresh).0 ≡ listed_one ∷ []
unfolding list_live_ephemerals container_states split trim_space split_n
one_live = refl

-- A GitHub with two runners that are online, one of them busy, and one that is not.
abbrev counted_world : Env
counted_world = record world {
  count_page = λ b. (
    record { name = codes "auto-1"; status = codes "online"; busy = true }
        ∷ record { name = codes "auto-2"; status = codes "online"; busy = false }
        ∷ record { name = codes "auto-3"; status = codes "offline"; busy = false }
        ∷ [],
    none,
  );
  total_page = λ b. pos 4;
}

collect_state-Whole_example :
    Whole counted_world deps
      (backend ∷ [])
      fresh
      (collect_state counted_world deps (backend ∷ []) fresh)
collect_state-Whole_example = collect_state-Whole counted_world deps (backend ∷ []) fresh

two_online :
    (collect_repo_state counted_world deps backend fresh).0
    ≡ ok (record {
      name = codes "a/b";
      cap = pos 1;
      queued = pos 4;
      in_progress = pos 4;
      online = 2;
      busy = 1;
      idle = pos 1;
      ghosts = 1;
      running_ephemerals = 0;
    })
unfolding collect_repo_state query_run_count repo_runner_counts count_running_or_zero count_runners
    count_running count_runner ps_args has_prefix fields trim_space inspect_args count_lines split
two_online = refl
