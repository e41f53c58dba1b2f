-- ===== src/Spawner/Runs.antt =====
-- The `docker run` commands of a history, against the counter of spawned runners.
use autoscaler.Common.{
  Bool, Bool-cases, List, [], arith, false, if◌then◌else◌, inl, inr, none, some, suc, true, ℕ, ◌&&◌,
  ◌+◌, ◌∷◌, ◌≡◌, ◌≤◌, ◌⊎◌,
}
use autoscaler.Config.{RepoConfig}
use autoscaler.Env.{Env, rand_bytes}
use autoscaler.Spawner.{
  admit, check_and_spawn, count_running, has_idle_matching_runner, inspect_args, launch, ps_args,
  run_args, spawn, write_pat_env_file,
}
use autoscaler.Text.{Bytes, bytes_eq, codes}
use autoscaler.World.{DockerAnswer, Machine, Spawner, Trace, docker, increment}

abbrev pub is_run : List Bytes → Bool
is_run [] = false
is_run (a ∷ args) = bytes_eq a (codes "run")

abbrev pub no_error : DockerAnswer → Bool
no_error a = elim a.error [ none ↦ true | some x ↦ false ]

-- How many `docker run` commands were issued, and how many of them succeeded.
abbrev pub attempts : Trace → ℕ
attempts [] = 0
attempts (docker args a ∷ t) = let n = attempts t in if is_run args then suc n else n
attempts (ev ∷ t) = attempts t

abbrev pub started : Trace → ℕ
started [] = 0
started (docker args a ∷ t) = let n = started t in if is_run args && no_error a then suc n else n
started (ev ∷ t) = started t

-- The counter of spawned runners moves by one exactly when a container was started.
abbrev pub Together : Machine → Machine → Type 0
Together m m' =
    ((m'.spawner.total_spawned ≡ m.spawner.total_spawned)
      × (started m'.trace ≡ started m.trace)
      × (attempts m'.trace ≤ attempts m.trace + 1))
    ⊎ ((m'.spawner.total_spawned ≡ increment m.spawner.total_spawned)
        × (started m'.trace ≡ started m.trace + 1)
        × (attempts m'.trace ≡ attempts m.trace + 1))

-- A piece of `Spawn` that starts nothing.
abbrev pub Quiet : Machine → Machine → Type 0
Quiet m m' =
    (started m'.trace ≡ started m.trace)
    × (attempts m'.trace ≡ attempts m.trace)
    × (m'.spawner ≡ m.spawner)

module _ (e : Env) (sp : Spawner) where
  pub has_idle-Quiet :
      (repo : RepoConfig) (m : Machine) → Quiet m (has_idle_matching_runner e sp repo m).1
  unfolding has_idle_matching_runner
  has_idle-Quiet repo m = ground arith

  pub count_running-Quiet : (repo : Bytes) (m : Machine) → Quiet m (count_running e sp repo m).1
  unfolding count_running ps_args inspect_args
  count_running-Quiet repo m = ground arith

  write_pat_env_file-Quiet : (m : Machine) → Quiet m (write_pat_env_file e sp m).1
  unfolding write_pat_env_file
  write_pat_env_file-Quiet m = ground arith

  launch-Together :
      (repo : RepoConfig) (m : Machine) → sp.dry_run ≡ false → Together m (launch e sp repo m).1
  unfolding launch run_args
  launch-Together repo m wet =
      let named = (rand_bytes e 4 m).1 in ground (arith, write_pat_env_file-Quiet named)

  admit-Together :
      (repo : RepoConfig) (m : Machine) → sp.dry_run ≡ false → Together m (admit e sp repo m).1
  unfolding admit
  admit-Together repo m wet =
      let counted = (count_running e sp repo.name m).1 in
      ground (arith, count_running-Quiet repo.name m, launch-Together repo counted wet)

  -- Outside of a dry run, `Spawn` issues `docker run` at most once, and `total_spawned` grows by
  -- one exactly when that command succeeds.
  pub spawn-Together :
      (repo : RepoConfig) (m : Machine) → sp.dry_run ≡ false → Together m (spawn e sp repo m).1
  unfolding spawn check_and_spawn
  spawn-Together repo m wet =
      let checked = (has_idle_matching_runner e sp repo m).1 in
      ground (arith, has_idle-Quiet repo m, admit-Together repo checked wet)

  -- Neither the commands nor the containers of a history grow.
  launch_dry :
      (repo : RepoConfig) (m : Machine)
      → sp.dry_run ≡ true
      → let t = (launch e sp repo m).1.trace in
        (attempts t ≡ attempts m.trace) × (started t ≡ started m.trace)
  unfolding launch
  launch_dry repo m dry = ground arith

  admit_dry :
      (repo : RepoConfig) (m : Machine)
      → sp.dry_run ≡ true
      → let t = (admit e sp repo m).1.trace in
        (attempts t ≡ attempts m.trace) × (started t ≡ started m.trace)
  unfolding admit
  admit_dry repo m dry =
      let counted = (count_running e sp repo.name m).1 in
      ground (arith, count_running-Quiet repo.name m, launch_dry repo counted dry)

  -- A dry run never issues `docker run`, and starts no container.
  pub spawn_dry :
      (repo : RepoConfig) (m : Machine)
      → sp.dry_run ≡ true
      → let t = (spawn e sp repo m).1.trace in
        (attempts t ≡ attempts m.trace) × (started t ≡ started m.trace)
  unfolding spawn check_and_spawn
  spawn_dry repo m dry =
      let checked = (has_idle_matching_runner e sp repo m).1 in
      ground (arith, has_idle-Quiet repo m, admit_dry repo checked dry)

  -- One call starts at most one container.
  pub started-spawn_le :
      (repo : RepoConfig) (m : Machine) → started (spawn e sp repo m).1.trace ≤ started m.trace + 1
  started-spawn_le repo m = elim (Bool-cases sp.dry_run) [
    | inl dry ↦ omega (arith, spawn_dry repo m dry)
    | inr wet ↦ elim (spawn-Together repo m wet) [
      | inl same ↦ omega (arith, same)
      | inr more ↦ omega (arith, more)
    ]
  ]
