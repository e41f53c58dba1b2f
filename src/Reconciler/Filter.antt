-- ===== src/Reconciler/Filter.antt =====
-- The filter of a manual reconcile.
use autoscaler.Common.{Bool, List, [], arith, keep, refl, ◌∷◌, ◌≡◌, ◌≢◌}
use autoscaler.Config.{RepoConfig}
use autoscaler.Env.{Env}
use autoscaler.Reconciler.{reconcile_repo, tick_filtered}
use autoscaler.Text.{Bytes, bytes_eq}
use autoscaler.World.{Machine, Spawner}

module _ (e : Env) (sp : Spawner) (base : Bytes) where
  abbrev named : Bytes → RepoConfig → Bool
  named filter repo = bytes_eq repo.name filter

  -- A reconcile of the repositories of one name is a reconcile of all of a configuration that holds
  -- just those, in the same order.
  pub tick_filtered-keep :
      (filter : Bytes) (repos : List RepoConfig) (m : Machine)
      → filter ≢ []
      → tick_filtered e sp base filter repos m
        ≡ tick_filtered e sp base [] (keep (λ repo. bytes_eq repo.name filter) repos) m
  unfolding tick_filtered
  tick_filtered-keep filter [] m h = refl
  tick_filtered-keep filter (repo ∷ repos) m h =
      let next_machine = (reconcile_repo e sp base repo m).1 in
      ground
        (arith, tick_filtered-keep filter repos m, tick_filtered-keep filter repos next_machine)
