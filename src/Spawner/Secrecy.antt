-- ===== src/Spawner/Secrecy.antt =====
-- internal/spawner/spawner.go: where the token of a `Spawner` goes.
use autoscaler.Common.{[], ◌∷◌}
use autoscaler.Config.{RepoConfig}
use autoscaler.Env.{Env}
use autoscaler.Spawner.{spawn}
use autoscaler.Spawner.Calls.{IsDiscreet, IsPublic, IsPublicUrl, spawn-Discreet}
use autoscaler.World.{Event, Machine, Spawner, Trace, clock, docker, http_do}

-- Every docker command and every URL of a history is one that is built with an empty token, for
-- repositories of a kind, from the configuration and from answers of docker and the operating
-- system.
abbrev pub AllDiscreet : Env → Spawner → (RepoConfig → Type 0) → Trace → Type 0
AllDiscreet e sp Own [] = Unit
AllDiscreet e sp Own (docker args a ∷ t) = IsPublic e sp Own args × AllDiscreet e sp Own t
AllDiscreet e sp Own (http_do req a ∷ t) = IsPublicUrl sp Own req.url × AllDiscreet e sp Own t
AllDiscreet e sp Own (ev ∷ t) = AllDiscreet e sp Own t

module _ (e : Env) (sp : Spawner) (Own : RepoConfig → Type 0) where
  law :
      (ev : Event) (t : Trace)
      → IsDiscreet e sp Own ev
      → AllDiscreet e sp Own t
      → AllDiscreet e sp Own (ev ∷ t)
  law (docker args a) t d h = (d, h)
  law (http_do req a) t d h = (d.1, h)
  law (clock n) t d h = elim d [ ]
  law _ t d h = h

  -- For repositories of any kind: where every docker command and every URL of the history is one
  -- that is built with an empty token for a repository of that kind, as docker ps of its name,
  -- docker inspect of what docker listed for it, docker run with the random bytes and the temporary
  -- file that the operating system answered, or the URL that lists its runners, that is so behind
  -- Spawn for such a repository.
  pub spawn-AllDiscreet :
      (repo : RepoConfig) (m : Machine)
      → Own repo
      → AllDiscreet e sp Own m.trace
      → AllDiscreet e sp Own (spawn e sp repo m).1.trace
  spawn-AllDiscreet repo m own h = spawn-Discreet e sp Own (AllDiscreet e sp Own) law repo m own h
