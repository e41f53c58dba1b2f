-- ===== src/Main/Access.antt =====
-- What a request without the portal's token can do to the process and to the world.
use autoscaler.Common.{
  All, Bool, List, Option, [], arith, false, if◌then◌else◌, inl, inr, refl, ℕ, ◌||◌, ◌∷◌, ◌≡◌,
}
use autoscaler.Config.{RepoConfig}
use autoscaler.Env.{Env}
use autoscaler.Main.{count_repos, handle_health, handle_stats, routes, serve}
use autoscaler.Portal.{Handler, PortalRequest, auth, handle_index}
use autoscaler.Portal.Access.{MayAct, auth_lem}
use autoscaler.Spawner.{count_running, count_running_or_zero, inspect_args, ps_args, stats_of}
use autoscaler.Text.{Bytes, bytes_eq, codes}
use autoscaler.World.{Event, Machine, Spawner, Trace, docker}

-- A docker command that only lists or inspects containers.
abbrev pub is_query : Event → Bool
is_query (docker (a ∷ args) x) = bytes_eq a (codes "ps") || bytes_eq a (codes "inspect")
is_query ev = false

-- All other calls of a history, the latest first.
abbrev pub acts : Trace → List Event
acts [] = []
acts (ev ∷ t) = let rest = acts t in if is_query ev then rest else ev ∷ rest

abbrev pub Harmless : Machine → Machine → Type 0
Harmless m m' = (m'.spawner ≡ m.spawner) × (m'.cleaner ≡ m.cleaner) × (acts m'.trace ≡ acts m.trace)

module _ (e : Env) (sp : Spawner) where
  count_or_zero-Harmless :
      (repo : Bytes) (m : Machine) → Harmless m (count_running_or_zero e sp repo m).1
  unfolding count_running_or_zero count_running ps_args inspect_args
  count_or_zero-Harmless repo m = ground arith

  count_repos-Harmless :
      (repos : List RepoConfig) (counts : List (Bytes × ℕ)) (m : Machine)
      → Harmless m (count_repos e sp repos counts m).1
  unfolding count_repos
  count_repos-Harmless [] counts m = ground arith
  count_repos-Harmless (repo ∷ repos) counts m =
      let n = count_running_or_zero e sp repo.name m in
      ground (
        arith,
        count_or_zero-Harmless repo.name m,
        count_repos-Harmless repos ((repo.name, n.0) ∷ counts) n.1,
      )

  handle_stats-Harmless :
      (repos : List RepoConfig) (r : PortalRequest) (m : Machine)
      → Harmless m (handle_stats e sp repos r m).1
  unfolding handle_stats stats_of
  handle_stats-Harmless repos r m = ground (arith, count_repos-Harmless repos [] m)

handle_index-Harmless : (r : PortalRequest) (m : Machine) → Harmless m (handle_index r m).1
unfolding handle_index
handle_index-Harmless r m = ground arith

-- A handler behind `auth` is not run.
denied-Harmless :
    (token : Bytes) (handler : Handler) (r : PortalRequest) (m : Machine)
    → ¬ MayAct token r
    → Harmless m (auth token handler r m).1
denied-Harmless token handler r m stranger = elim (auth_lem token handler r m) [
  | inl (may, same) ↦ absurd (stranger may)
  | inr (no_right, same) ↦ rw same (refl, refl, refl)
]

serve_lem :
    (choose : Bytes → Option Bytes) (table : List (Bytes × Handler)) (r : PortalRequest)
    (m : Machine)
    → All (λ entry. Harmless m (entry.1 r m).1) table
    → Harmless m (serve choose table r m).1
unfolding serve
serve_lem choose [] r m h = ground arith
serve_lem choose ((pattern_of, handler) ∷ more) r m h =
    ground (arith, serve_lem choose more r m h.1)

-- Where a portal token is configured, a request that does not present it changes neither the
-- spawner nor the cleaner, and leads to no call of the world but docker ps and docker inspect,
-- whatever pattern the server chooses for its path.
pub serve-Harmless :
    (e : Env) (sp : Spawner) (base token : Bytes) (repos order : List RepoConfig)
    (choose : Bytes → Option Bytes) (r : PortalRequest) (m : Machine)
    → ¬ MayAct token r
    → Harmless m (serve choose (routes e sp base token repos order) r m).1
unfolding routes handle_health
serve-Harmless e sp base token repos order choose r m stranger =
    let denied = λ (handler : Handler). denied-Harmless token handler r m stranger in
    serve_lem choose (routes e sp base token repos order) r m (
      (refl, refl, refl),
      (
        handle_stats-Harmless e sp repos r m,
        (
          handle_index-Harmless r m,
          (denied _, (denied _, (denied _, (denied _, (denied _, (denied _, tt)))))),
        ),
      ),
    )
