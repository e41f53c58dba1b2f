-- ===== src/Tests/Spawner.antt =====
-- Runs of `Spawn`, and its theorems at a small world.
use autoscaler.Common.{none, refl, some, ◌≡◌}
use autoscaler.Spawner.{
  admit, cap_hit, check_and_spawn, count_lines, count_running, has_idle_matching_runner,
  inspect_args, launch, ps_args, run_args, spawn, write_pat_env_file,
}
use autoscaler.Spawner.Accounts.{Accounts, spawn-Accounts}
use autoscaler.Spawner.Runs.{started}
use autoscaler.Spawner.Secrecy.{AllDiscreet, spawn-AllDiscreet}
use autoscaler.Tests.World.{backend, deps, fresh, world}
use autoscaler.Text.{fields, split, trim_space}

-- The first call starts a runner, the second meets the cap.
spawn_twice :
    let r = spawn world deps backend fresh in
    (r.0 ≡ none)
    × ((spawn world deps backend r.1).0 ≡ some cap_hit)
    × (started r.1.trace ≡ 1)
    × (r.1.spawner.total_spawned ≡ 1)
unfolding spawn check_and_spawn admit count_running launch has_idle_matching_runner
    write_pat_env_file run_args ps_args inspect_args fields split count_lines trim_space
spawn_twice = (refl, refl, refl, refl)

spawn-Accounts_example :
    let r = spawn world deps backend fresh in
    Accounts r.0 fresh.spawner r.1.spawner × (r.1.cleaner ≡ fresh.cleaner)
spawn-Accounts_example = spawn-Accounts world deps backend fresh

spawn-AllDiscreet_example :
    AllDiscreet world deps (λ r. r ≡ backend) (spawn world deps backend fresh).1.trace
spawn-AllDiscreet_example = spawn-AllDiscreet world deps (λ r. r ≡ backend) backend fresh refl tt
