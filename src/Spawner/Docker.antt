-- ===== src/Spawner/Docker.antt =====
-- What `Spawn` relies on of Docker. Docker is not code of the repository: this is its documented
-- behaviour, as hypotheses on the answers of an `Env`, for the three commands that `Spawn` issues.
use autoscaler.Common.{Bool, List, false, length, none, true, ◌+◌, ◌∷◌, ◌≡◌, ◌≢◌, ◌≤◌}
use autoscaler.Config.{RepoConfig}
use autoscaler.Env.{Env}
use autoscaler.Spawner.{count_lines, inspect_args, ps_args, run_args}
use autoscaler.Spawner.Runs.{is_run}
use autoscaler.Text.{Bytes, elem, fields, split, trim_space}
use autoscaler.World.{Event, Spawner, Trace, docker}

-- The containers of t' are among those of t.
pub record Fewer (before after : List Bytes) : Type 0 where
  pub among : (x : Bytes) → elem x after ≡ true → elem x before ≡ true
  pub count : length after ≤ length before

-- Whether an event is a `docker run`, of any repository.
abbrev pub is_run_event : Event → Bool
is_run_event (docker args a) = is_run args
is_run_event ev = false

-- `running t repo`: the ids of the containers that are really running after the history t and that
-- carry the labels of the autoscaler and of repo. Containers may end at any time by themselves.
pub record Docker (e : Env) (sp : Spawner) : Type 0 where
  pub running : Trace → Bytes → List Bytes
  -- Only `docker run` starts a container, and only one with the labels of its arguments.
  pub quiet_keeps :
      (t : Trace) (ev : Event) (repo : Bytes)
      → is_run_event ev ≡ false
      → Fewer (running t repo) (running (ev ∷ t) repo)
  pub other_keeps :
      (t : Trace) (q : RepoConfig) (name env_file : Bytes) (repo : Bytes)
      → q.name ≢ repo
      → let args = run_args sp q name env_file in
        Fewer (running t repo) (running (docker args (e.run_docker t args) ∷ t) repo)
  -- `docker run` starts at most one container.
  pub run_adds :
      (t : Trace) (q : RepoConfig) (name env_file : Bytes)
      → let args = run_args sp q name env_file in
        length (running (docker args (e.run_docker t args) ∷ t) q.name)
        ≤ length (running t q.name) + 1
  -- `docker ps -a` with the labels as filters lists every running container that carries them.
  pub ps_lists :
      (t : Trace) (repo x : Bytes)
      → let a = e.run_docker t (ps_args repo) in
        a.error ≡ none
        → elem x (running (docker (ps_args repo) a ∷ t) repo) ≡ true
        → elem x (fields (trim_space a.stdout)) ≡ true
  -- `docker inspect` prints the state of each container that it is given, a line each.
  pub inspect_prints :
      (t : Trace) (repo : Bytes) (ids : List Bytes)
      → let a = e.run_docker t (inspect_args ids) in
        a.error ≡ none
        → ((x : Bytes) → elem x (running t repo) ≡ true → elem x ids ≡ true)
        → length (running (docker (inspect_args ids) a ∷ t) repo)
          ≤ count_lines (split (trim_space a.stdout) b'\n')
