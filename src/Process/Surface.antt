-- ===== src/Process/Surface.antt =====
-- The calls of Docker and of the network that the process of cmd/autoscaler/main.go makes.
use autoscaler.Cleanup.{rm_args}
use autoscaler.Common.{All, Bool, List, inl, inr, refl, ℤ, ◌≡◌, ◌⊎◌}
use autoscaler.Config.{Config, RepoConfig}
use autoscaler.Env.{Env}
use autoscaler.Process.Actions.{
  Action, IsConfigured, Library, WorksOn, process, process-Holds, spawner_of,
}
use autoscaler.Process.Keeps.{
  Holds, Invariant, IsCommand, IsSource, Keeps, asks_state, cancel_request, delete_request, jobs_at,
  lists_repo, runners_at, runs_at,
}
use autoscaler.Smee.{relay_request}
use autoscaler.Spawner.{run_args, runner_name, runners_url}
use autoscaler.Spawner.Calls.{
  IsDiscreet, IsPublic, blank, inspects, launches, lists, runners_of, spawn-Discreet,
}
use autoscaler.Text.{Bytes, codes}
use autoscaler.World.{
  DockerAnswer, Event, Request, Spawner, Trace, clock, delete, docker, get, http_do, ok, post,
}

-- The command that starts a runner of a configured repository, as it is with an empty token, with
-- random bytes and a temporary file that the operating system answered.
abbrev pub IsLaunch : Env → Spawner → Config → List Bytes → Type 0
IsLaunch e sp cfg args =
    (repo : RepoConfig) × IsConfigured cfg repo
    × (t : Trace) × (t' : Trace) × (path : Bytes) × (e.make_temp t' (codes "autoscaler-env-*.env")
        ≡ ok path)
    × (args ≡ run_args (blank sp) repo (runner_name repo (e.read_random t 4)) (e.clean_path path))

abbrev pub IsRemoval : List Bytes → Type 0
IsRemoval args = (id : Bytes) × (args ≡ rm_args id)

-- A request that carries the token goes to a configured repository at GitHub, and its URL is the one
-- with an empty token: it reads, cancels a run or deletes a runner.
abbrev pub IsSigned : Spawner → Config → Request → Type 0
IsSigned sp cfg req =
    ((req.method ≡ get) × IsSource (blank sp) (IsConfigured cfg) req.url)
    ⊎ ((repo : RepoConfig) × IsConfigured cfg repo
        × (id : ℤ) × (req.method ≡ post)
        × (req.url ≡ (cancel_request (blank sp) repo.name id).url))
    ⊎ ((repo : RepoConfig) × IsConfigured cfg repo
        × (id : ℤ) × (req.method ≡ delete)
        × (req.url ≡ (delete_request (blank sp) repo.name id).url))

IsSource-blank :
    (sp : Spawner) (Own : RepoConfig → Type 0) (url : Bytes)
    → IsSource sp Own url
    → IsSource (blank sp) Own url
IsSource-blank sp Own url (runners_at repo own h) = runners_at repo own h
IsSource-blank sp Own url (runs_at repo status size own a b h) = runs_at repo status size own a b h
IsSource-blank sp Own url (jobs_at repo id own h) = jobs_at repo id own h

-- The stream of the relay is asked for without the token.
abbrev pub Known : Env → Spawner → Config → Event → Type 0
Known e sp cfg (docker args a) =
    IsCommand (IsConfigured cfg) args ⊎ IsRemoval args ⊎ IsLaunch e sp cfg args
Known e sp cfg (http_do req a) = IsSigned sp cfg req ⊎ (req ≡ relay_request cfg.smee_url)
Known e sp cfg ev = Unit

abbrev pub AllKnown : Env → Spawner → Config → Invariant
AllKnown e sp cfg t s c = All (Known e sp cfg) t

module _ (e : Env) (sp : Spawner) (cfg : Config) where
  public-Known :
      (args : List Bytes) (a : DockerAnswer)
      → IsPublic e sp (IsConfigured cfg) args
      → Known e sp cfg (docker args a)
  public-Known args a (lists repo own h) = inl (lists_repo repo own h)
  public-Known args a (inspects t repo own h) = inl (asks_state _ h)
  public-Known args a (launches repo t t' path own made h) =
      inr (inr (repo, own, t, t', path, made, h))

  discreet-Known : (ev : Event) → IsDiscreet e sp (IsConfigured cfg) ev → Known e sp cfg ev
  unfolding runners_url
  discreet-Known (docker args a) d = public-Known args a d
  discreet-Known (http_do req a) (read, runners_of repo own h) =
      inl (inl (read, runners_at repo own h))
  discreet-Known (clock n) d = tt
  discreet-Known _ d = tt

  AllKnown-Keeps : Keeps e sp cfg.smee_url (IsConfigured cfg) (AllKnown e sp cfg)
  AllKnown-Keeps = record {
    commands = λ args a t s c known h. (inl known, h);
    fetches = λ url headers a t s c known h.
        (inl (inl (refl, IsSource-blank sp (IsConfigured cfg) url known)), h);
    relays = λ a t s c h. (inr refl, h);
    reads_clock = λ n t s c h. (tt, h);
    cancels = λ repo id a t s c own h. (inl (inr (inl (repo, own, id, refl, refl))), h);
    deletes = λ repo id a t s c own h. (inl (inr (inr (repo, own, id, refl, refl))), h);
    removes = λ id a t s c h. (inr (inl (id, refl)), h);
    summarises = λ x t s c h. h;
    pauses = λ p t s c h. h;
    reconciles = λ t s c h. h;
    spawns = λ repo m own h.
        spawn-Discreet e sp (IsConfigured cfg) (All (Known e sp cfg))
          (λ ev t d rest. (discreet-Known ev d, rest)) repo m own h;
  }

-- However the connections, ticks and requests of the process follow one another, each to its end,
-- and whatever the world answers, each call of Docker or of the network that it has made is one
-- of these: docker ps or docker inspect; docker stop of a container whose name begins with auto-;
-- docker rm -f; docker run as it is built with an empty token for a configured repository, with
-- random bytes and the path of a temporary file that the operating system answered; a request to a
-- configured repository at GitHub's API that lists its runners, its queued or running runs (1 or 100
-- a page) or the jobs of a run, cancels a run or deletes a runner, by the URL that is built with an
-- empty token; and the request to the relay, which carries no token. The cleanup ticks work on
-- configured repositories.
pub process-AllKnown :
    (e : Env) (lib : Library) (cfg : Config) (dry_run : Bool) (actions : List Action)
    → All (WorksOn (IsConfigured cfg)) actions
    → let sp = spawner_of e lib cfg dry_run in
      Holds (AllKnown e sp cfg) (process e lib cfg dry_run actions)
process-AllKnown e lib cfg dry_run actions within =
    let sp = spawner_of e lib cfg dry_run in
    process-Holds e lib cfg dry_run (IsConfigured cfg) (λ r there. there) (AllKnown e sp cfg)
      (AllKnown-Keeps e sp cfg) tt actions within
