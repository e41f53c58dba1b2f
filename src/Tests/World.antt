-- ===== src/Tests/World.antt =====
-- A world for the tests: Docker, GitHub and the operating system as small functions.
use autoscaler.Common.{Bool, List, [], false, if◌then◌else◌, none, pos, ℕ, ◌++◌, ◌||◌, ◌∷◌}
use autoscaler.Config.{RepoConfig}
use autoscaler.Env.{Env}
use autoscaler.Text.{Bytes, bytes_eq, codes}
use autoscaler.World.{DockerAnswer, Machine, Response, Spawner, Summary, Trace, docker, ok}

abbrev pub fine : Bytes → DockerAnswer
fine out = record { stdout = out; stderr = []; error = none }

abbrev pub page : ℕ → Response
page status = record { status = status; body = record { content = []; broken = false } }

-- A runner container was started in the history.
abbrev pub ran : Trace → Bool
ran [] = false
ran (docker (a ∷ args) x ∷ t) = bytes_eq a (codes "run") || ran t
ran (ev ∷ t) = ran t

-- `docker ps` lists one container, which runs if a runner was started.
abbrev pub small_docker : Trace → List Bytes → DockerAnswer
small_docker t [] = fine []
small_docker t (a ∷ args) =
    if bytes_eq a (codes "ps")
    then fine (codes "c\n")
    else if bytes_eq a (codes "inspect")
    then fine (if ran t then codes "running\n" else codes "exited\n")
    else fine (codes "c\n")

abbrev pub world : Env
world = record {
  run_docker = small_docker;
  do_http = λ t req. ok (page 200);
  read_random = λ t n. 1 ∷ 2 ∷ 3 ∷ 171 ∷ [];
  make_temp = λ t pattern. ok (codes "/tmp/e");
  set_mode = λ t path mode. none;
  write_file = λ t path text. none;
  close_file = λ t path. none;
  remove_path = λ t path. none;
  now = λ t. pos 0;
  map_order = λ t ids. ids;
  unicode_lower = λ s. s;
  clean_path = λ s. s;
  url_error = λ s. none;
  rfc3339_nano = λ s. none;
  rfc3339 = λ s. none;
  hmac_sha256 = λ key text. key ++ text;
  idle_page = λ b. ([], none);
  count_page = λ b. ([], none);
  runner_page = λ b. ([], none);
  name_page = λ b. ([], none);
  run_page = λ b. ([], none);
  queued_page = λ b. ([], none);
  running_page = λ b. ([], none);
  total_page = λ b. pos 0;
}

abbrev pub deps : Spawner
deps = record {
  pat = codes "ghp";
  runner_image = codes "img";
  dry_run = false;
  api_base = codes "https://api.github.com";
}

abbrev pub backend : RepoConfig
backend = record {
  name = codes "a/b";
  repo_url = codes "u";
  match_labels = codes "mac" ∷ [];
  label = codes "mac docker";
  runner_labels = codes "mac";
  max_concurrency = pos 1;
}

abbrev pub no_summary : Summary
no_summary = record {
  repos = 0;
  ghosts_found = 0;
  runs_cancelled = 0;
  ghosts_deleted = 0;
  ghosts_still_stuck = 0;
  local_ghosts_reaped = 0;
  total_ghosts_deleted = 0;
  total_runs_cancelled = 0;
  total_local_ghosts_reaped = 0;
}

abbrev pub fresh : Machine
fresh = record {
  trace = [];
  spawner = record {
    paused = false;
    total_spawned = 0;
    total_cap_hit = 0;
    total_errors = 0;
    total_idle_skip = 0;
    total_reconcile = 0;
    total_paused = 0;
  };
  cleaner = record {
    local_grace = pos 300000000000;
    ghosts_deleted = 0;
    runs_cancelled = 0;
    local_ghosts_reaped = 0;
    last_summary = no_summary;
  };
}
