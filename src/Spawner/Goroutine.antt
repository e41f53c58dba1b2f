-- ===== src/Spawner/Goroutine.antt =====
-- `Spawn` as a goroutine runs it: one call of the world, or one operation on the mutex, at a time.
-- `advance` is one step outside of the mutex operations, and `rest` is what `Spawn` still does.
use autoscaler.Common.{
  List, Option, [], false, if◌then◌else◌, leb_ℤ, none, pos, some, suc, true, zero, ℕ, ◌++◌, ◌∷◌,
}
use autoscaler.Config.{RepoConfig}
use autoscaler.Env.{
  Env, chmod_file, close_handle, exec_docker, rand_bytes, remove_file, temp_file, write_text,
}
use autoscaler.Spawner.{
  SpawnError, add_cap_hit, add_error, add_idle_skip, add_paused, add_spawned, cap_hit, count_failed,
  count_lines, docker_run_failed, env_file_failed, has_idle_matching_runner, inspect_args,
  is_paused, paused_error, ps_args, run_args, runner_name,
}
use autoscaler.Text.{Bytes, codes, fields, split, trim_space}
use autoscaler.World.{M, Spawner, err, ok, pure, ◌>>=◌, ◌>>◌}

-- Where a goroutine in `Spawn` stands, with the local variables that are live there.
pub data Pc : Type 0 where
  ready : Pc  -- before `s.paused.Load()`
  queued : Pc  -- before `mu.Lock()`
  checking : Pc  -- before the request of `hasIdleMatchingRunner`
  listing : Pc  -- before `docker ps`
  inspecting : (ids : List Bytes) → Pc  -- before `docker inspect`
  naming : Pc  -- behind the cap check
  creating : (name : Bytes) → Pc  -- `writePATEnvFile`, call by call
  moding : (name path : Bytes) → Pc
  writing : (name path : Bytes) → Pc
  closing : (name path : Bytes) → Pc
  discarding : (path x : Bytes) → Pc  -- closes the file after an error
  failing : (path x : Bytes) → Pc  -- removes the file after an error
  launching : (name env_file path : Bytes) → Pc  -- before `docker run`
  removing : (path : Bytes) (result : Option SpawnError) → Pc  -- the deferred cleanup
  leaving : (result : Option SpawnError) → Pc  -- the deferred `mu.Unlock()`
  finished : (result : Option SpawnError) → Pc

module _ (e : Env) (sp : Spawner) (repo : RepoConfig) where
  -- The cap check.
  unfoldable pub judge : ℕ → M Pc
  judge running =
      if leb_ℤ repo.max_concurrency (pos running)
      then (do add_cap_hit; pure (leaving (some cap_hit)))
      else pure naming

  unfoldable pub check_idle : M Pc
  unfolding has_idle_matching_runner
  check_idle = do
    idle ← has_idle_matching_runner e sp repo
    elim idle [
      | ok true ↦ do add_idle_skip; pure (leaving none)
      | ok false ↦ pure listing
      | err x ↦ pure listing
    ]

  unfoldable pub list_containers : M Pc
  unfolding judge
  list_containers = do
    listed ← exec_docker e (ps_args repo.name)
    elim listed.error [
      | some x ↦ do add_error; pure (leaving (some (count_failed x)))
      | none ↦ elim (fields (trim_space listed.stdout)) [
        | [] ↦ judge 0
        | id ∷ ids ↦ pure (inspecting (id ∷ ids))
      ]
    ]

  unfoldable pub inspect_containers : List Bytes → M Pc
  unfolding judge
  inspect_containers ids = do
    states ← exec_docker e (inspect_args ids)
    elim states.error [
      | some x ↦ do add_error; pure (leaving (some (count_failed x)))
      | none ↦ judge (count_lines (split (trim_space states.stdout) b'\n'))
    ]

  unfoldable pub run_container : Bytes → Bytes → Bytes → M Pc
  run_container name env_file path = do
    out ← exec_docker e (run_args sp repo name env_file)
    elim out.error [
      | some x ↦ do
        add_error
        pure (removing path (some (docker_run_failed x (trim_space out.stderr))))
      | none ↦ do add_spawned; pure (removing path none)
    ]

  -- At the mutex and at the end a goroutine does not move by itself.
  unfoldable pub advance : Pc → M Pc
  unfolding check_idle list_containers inspect_containers run_container
  advance ready = do
    p ← is_paused
    elim p [ true ↦ do add_paused; pure (finished (some paused_error)) | false ↦ pure queued ]
  advance queued = pure queued
  advance checking = check_idle
  advance listing = list_containers
  advance (inspecting ids) = inspect_containers ids
  advance naming = do
    suffix ← rand_bytes e 4
    elim sp.dry_run [
      | true ↦ do add_spawned; pure (leaving none)
      | false ↦ pure (creating (runner_name repo suffix))
    ]
  advance (creating name) = do
    created ← temp_file e (codes "autoscaler-env-*.env")
    elim created [
      | err x ↦ do add_error; pure (leaving (some (env_file_failed x)))
      | ok path ↦ pure (moding name path)
    ]
  advance (moding name path) = do
    moded ← chmod_file e path 384
    elim moded [ some x ↦ pure (discarding path x) | none ↦ pure (writing name path) ]
  advance (writing name path) = do
    written ← write_text e path (codes "ACCESS_TOKEN=" ++ (sp.pat ++ codes "\n"))
    elim written [ some x ↦ pure (discarding path x) | none ↦ pure (closing name path) ]
  advance (closing name path) = do
    closed ← close_handle e path
    elim closed [
      | some x ↦ pure (failing path x)
      | none ↦ pure (launching name (e.clean_path path) path)
    ]
  advance (discarding path x) = do close_handle e path; pure (failing path x)
  advance (failing path x) = do
    remove_file e path
    add_error
    pure (leaving (some (env_file_failed x)))
  advance (launching name env_file path) = run_container name env_file path
  advance (removing path result) = do remove_file e path; pure (leaving result)
  advance (leaving result) = pure (leaving result)
  advance (finished result) = pure (finished result)

  -- A goroutine that nobody else disturbs takes the mutex, and gives it back.
  unfoldable pub solo : Pc → M Pc
  unfolding advance
  solo queued = pure checking
  solo (leaving result) = pure (finished result)
  solo pc = advance pc

  unfoldable pub solo_steps : ℕ → Pc → M Pc
  solo_steps zero pc = pure pc
  solo_steps (suc n) pc = do next ← solo pc; solo_steps n next
