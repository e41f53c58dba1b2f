-- ===== src/Spawner/Solo.antt =====
-- internal/spawner/spawner.go: a goroutine that runs `Spawn` alone.
use autoscaler.Common.{Option, arith, ◌≡◌}
use autoscaler.Config.{RepoConfig}
use autoscaler.Env.{Env, exec_docker}
use autoscaler.Spawner.{
  SpawnError, admit, check_and_spawn, count_running, has_idle_matching_runner, inspect_args, launch,
  ps_args, spawn, write_pat_env_file,
}
use autoscaler.Spawner.Goroutine.{
  Pc, check_idle, checking, finished, judge, list_containers, listing, naming, ready, solo,
  solo_steps,
}
use autoscaler.Text.{fields, trim_space}
use autoscaler.World.{Machine, Spawner}

module _ (e : Env) (sp : Spawner) (repo : RepoConfig) where
  abbrev ended : Option SpawnError × Machine → Pc × Machine
  ended r = (finished r.0, r.1)

  solo-naming : (m : Machine) → solo_steps e sp repo 8 naming m ≡ ended (launch e sp repo m)
  unfolding solo_steps solo launch write_pat_env_file
  solo-naming m = ground arith

  solo-naming_more : (m : Machine) → solo_steps e sp repo 9 naming m ≡ ended (launch e sp repo m)
  unfolding solo_steps solo launch write_pat_env_file
  solo-naming_more m = ground arith

  solo-listing : (m : Machine) → solo_steps e sp repo 10 listing m ≡ ended (admit e sp repo m)
  unfolding solo_steps solo judge list_containers admit count_running
  solo-listing m =
      let listed = exec_docker e (ps_args repo.name) m in
      let ids = fields (trim_space listed.0.stdout) in
      let inspected = exec_docker e (inspect_args ids) listed.1 in
      ground (arith, solo-naming_more listed.1, solo-naming inspected.1)

  solo-checking :
      (m : Machine) → solo_steps e sp repo 11 checking m ≡ ended (check_and_spawn e sp repo m)
  unfolding solo_steps solo check_idle check_and_spawn
  solo-checking m =
      let checked = (has_idle_matching_runner e sp repo m).1 in ground (arith, solo-listing checked)

  -- A goroutine that runs alone through the steps of `Spawn` ends after at most 13 of them, with
  -- the result and in the state that `spawn` gives.
  pub solo_steps-spawn :
      (m : Machine)
      → solo_steps e sp repo 13 ready m ≡ (finished (spawn e sp repo m).0, (spawn e sp repo m).1)
  unfolding solo_steps solo spawn
  solo_steps-spawn m = ground (arith, solo-checking m)
