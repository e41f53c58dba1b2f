-- ===== src/Main/Defs.antt =====
-- cmd/autoscaler/main.go. `http.ServeMux` is the function `choose` from a request's path to the
-- pattern that serves it.
use autoscaler.Cleanup.{cleanup_interval, new_cleaner}
use autoscaler.Common.{
  Bool, List, Option, [], false, if◌then◌else◌, inl, inr, ltb_ℤ, none, pos, some, true, ℕ, ℤ, ◌++◌,
  ◌∷◌, ◌⊎◌,
}
use autoscaler.Config.{Config, ConfigError, RepoConfig}
use autoscaler.Env.{Env}
use autoscaler.Portal.{Handler, healthy, portal_routes, refused, stats_are}
use autoscaler.Reconciler.{reconciler_interval}
use autoscaler.Spawner.{count_running_or_zero, new_spawner, stats_of}
use autoscaler.Text.{Bytes, bytes_eq, codes, is_empty}
use autoscaler.World.{Fallible, M, Machine, Spawner, err, ok, pure, ◌>>=◌}

pub data Level : Type 0 where
  debug : Level
  info : Level
  warn : Level
  error : Level

unfoldable pub parse_level : Bytes → Level
parse_level s =
    if bytes_eq s (codes "debug")
    then debug
    else if bytes_eq s (codes "warn")
    then warn
    else if bytes_eq s (codes "error")
    then error
    else info

-- `redactSmeeURL`; `parse` is `url.Parse`, with the scheme and the host of its result.
unfoldable pub redact_smee_url : (Bytes → Fallible (Bytes × Bytes)) → Bytes → Bytes
redact_smee_url parse u = elim (parse u) [
  | err x ↦ codes "[redacted]"
  | ok (scheme, host) ↦
      if is_empty host
      then codes "[redacted]"
      else scheme ++ (codes "://" ++ (host ++ codes "/[redacted]"))
]

unfoldable pub handle_health : Handler
handle_health r = pure healthy

module _ (e : Env) (sp : Spawner) where
  -- The loop that fills `RunningByRepo`.
  unfoldable pub count_repos : List RepoConfig → List (Bytes × ℕ) → M (List (Bytes × ℕ))
  count_repos [] counts = pure counts
  count_repos (repo ∷ repos) counts = do
    n ← count_running_or_zero e sp repo.name
    count_repos repos ((repo.name, n) ∷ counts)

  unfoldable pub handle_stats : List RepoConfig → Handler
  handle_stats repos r = do
    s ← stats_of
    counts ← count_repos repos []
    pure (stats_are (record s { running_by_repo = counts }))

  -- `buildHTTPServer`: all patterns with their handlers.
  unfoldable pub routes : Bytes → Bytes → List RepoConfig → List RepoConfig → List (Bytes × Handler)
  unfolding portal_routes
  routes base token repos order =
      (codes "/healthz", handle_health)
      ∷ (codes "/stats", handle_stats repos)
      ∷ portal_routes e sp base token repos order

-- What the server does for a request: the handler of the pattern that its path chooses.
unfoldable pub serve : (Bytes → Option Bytes) → List (Bytes × Handler) → Handler
serve choose [] r = pure (refused 404 (codes "not found"))
serve choose ((pattern_of, handler) ∷ more) r = elim (choose r.path) [
  | none ↦ pure (refused 404 (codes "not found"))
  | some p ↦ elim (bytes_eq pattern_of p) [ true ↦ handler r | false ↦ serve choose more r ]
]

-- The flags that `start` reads. Durations are in nanoseconds.
pub record Flags : Type 0 where
  pub dry_run : Bool
  pub reconcile_interval : ℤ
  pub cleanup_every : ℤ

-- What `main` starts: nothing but an exit status, or the parts of the process with the intervals of
-- the loops that are enabled, and the reconciler's interval in any case.
pub data Startup : Type 0 where
  exits : (status : ℕ) → Startup
  starts :
      (cfg : Config) (sp : Spawner) (at_start : Machine) (reconciles : Bool)
      (reconcile_interval : ℤ) (cleans : Option ℤ)
      → Startup

abbrev pub new_machine : Machine
new_machine = record {
  trace = [];
  spawner = record {
    paused = false;
    total_spawned = 0;
    total_cap_hit = 0;
    total_errors = 0;
    total_idle_skip = 0;
    total_reconcile = 0;
    total_paused = 0;
  };
  cleaner = new_cleaner;
}

abbrev pub hour : ℤ
hour = pos 3600000000000

-- `main` up to the start of the relay's client; `loaded` is what `Load` returns.
unfoldable pub start : Flags → Config ⊎ ConfigError → Startup
start flags (inr x) = exits 2
start flags (inl cfg) =
    let enabled = ltb_ℤ (pos 0) flags.reconcile_interval in
    starts cfg (new_spawner cfg.github_pat cfg.runner_image flags.dry_run) new_machine enabled
      (reconciler_interval (if enabled then flags.reconcile_interval else hour))
      (if ltb_ℤ (pos 0) flags.cleanup_every
        then some (cleanup_interval flags.cleanup_every)
        else none)

-- The exit status of `main` behind the relay's client: `smee_error` is its error, with whether it
-- is `context.Canceled`.
unfoldable pub exit_status : Option (Bytes × Bool) → ℕ
exit_status none = 0
exit_status (some (x, canceled)) = if canceled then 0 else 1
