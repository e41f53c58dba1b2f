-- ===== src/Spawner/Accounts.antt =====
-- The lifetime counters of `Spawn` against its results and against the containers that it started.
use autoscaler.Common.{Option, arith, none, some, ◌≡◌, ◌⊎◌}
use autoscaler.Config.{RepoConfig}
use autoscaler.Env.{Env}
use autoscaler.Spawner.{
  SpawnError, admit, cap_hit, check_and_spawn, count_running, has_idle_matching_runner, launch,
  paused_error, spawn, write_pat_env_file,
}
use autoscaler.Text.{Bytes}
use autoscaler.World.{Machine, Spawner, SpawnerState, increment}

-- One call adds one to the counter of its outcome, and leaves the other fields alone.
abbrev pub Accounts : Option SpawnError → SpawnerState → SpawnerState → Type 0
Accounts none s t =
    (t ≡ record s { total_spawned = increment s.total_spawned })
    ⊎ (t ≡ record s { total_idle_skip = increment s.total_idle_skip })
Accounts (some paused_error) s t = t ≡ record s { total_paused = increment s.total_paused }
Accounts (some cap_hit) s t = t ≡ record s { total_cap_hit = increment s.total_cap_hit }
Accounts (some x) s t = t ≡ record s { total_errors = increment s.total_errors }

module _ (e : Env) (sp : Spawner) where
  has_idle_frame :
      (repo : RepoConfig) (m : Machine)
      → let t = (has_idle_matching_runner e sp repo m).1 in
        (t.spawner ≡ m.spawner) × (t.cleaner ≡ m.cleaner)
  unfolding has_idle_matching_runner
  has_idle_frame repo m = ground arith

  count_running_frame :
      (repo : Bytes) (m : Machine)
      → let t = (count_running e sp repo m).1 in (t.spawner ≡ m.spawner) × (t.cleaner ≡ m.cleaner)
  unfolding count_running
  count_running_frame repo m = ground arith

  write_pat_env_file_frame :
      (m : Machine)
      → let t = (write_pat_env_file e sp m).1 in (t.spawner ≡ m.spawner) × (t.cleaner ≡ m.cleaner)
  unfolding write_pat_env_file
  write_pat_env_file_frame m = ground arith

  launch-Accounts :
      (repo : RepoConfig) (m : Machine)
      → let r = launch e sp repo m in Accounts r.0 m.spawner r.1.spawner × (r.1.cleaner ≡ m.cleaner)
  unfolding launch
  launch-Accounts repo m = grind (arith, write_pat_env_file_frame)

  admit-Accounts :
      (repo : RepoConfig) (m : Machine)
      → let r = admit e sp repo m in Accounts r.0 m.spawner r.1.spawner × (r.1.cleaner ≡ m.cleaner)
  unfolding admit
  admit-Accounts repo m =
      let counted = (count_running e sp repo.name m).1 in
      ground (arith, count_running_frame repo.name m, launch-Accounts repo counted)

  -- Every call of `Spawn` adds one to exactly one counter, the one of its result: spawned or
  -- idle-skip for nil, paused for ErrPaused, cap-hit for ErrCapHit, errors for any other error. The
  -- pause flag, the other counters and the cleaner's state stay as they are.
  pub spawn-Accounts :
      (repo : RepoConfig) (m : Machine)
      → let r = spawn e sp repo m in Accounts r.0 m.spawner r.1.spawner × (r.1.cleaner ≡ m.cleaner)
  unfolding spawn check_and_spawn
  spawn-Accounts repo m =
      let checked = (has_idle_matching_runner e sp repo m).1 in
      ground (arith, has_idle_frame repo m, admit-Accounts repo checked)
