-- ===== src/Tests/Main.antt =====
-- Runs of the HTTP server, and its theorem at small requests.
use autoscaler.Common.{[], false, inl, inr, none, pos, refl, some, true, ◌∷◌, ◌≡◌}
use autoscaler.Config.{no_repos}
use autoscaler.Main.{
  Flags, Startup, exit_status, exits, info, parse_level, redact_smee_url, routes, serve, start,
  starts, warn,
}
use autoscaler.Main.Access.{Harmless, serve-Harmless}
use autoscaler.Main.Ending.{Lived, here, next}
use autoscaler.Main.Lifecycle.{
  Life, all_drained, canceled_error, client_ends, exited, following, server_ends, shut, signal,
  untracked_starts,
}
use autoscaler.Portal.{PortalRequest, presented}
use autoscaler.Portal.Access.{MayAct}
use autoscaler.Tests.Webhook.{cfg}
use autoscaler.Tests.World.{backend, deps, fresh, world}
use autoscaler.Text.{codes, strip_prefix, trim_prefix}
use autoscaler.World.{ok}

abbrev stranger : PortalRequest
stranger = record {
  path = codes "/api/stop";
  is_post = true;
  authorization = [];
  cookie = none;
  name = codes "auto-x";
  repo = [];
}

unknown : ¬ MayAct (codes "t0") stranger
unfolding presented trim_prefix strip_prefix
unknown (inl h) = cc
unknown (inr h) = cc h

serve-Harmless_example :
    Harmless fresh
      (serve some
        (routes world deps
          (codes "https://api.github.com")
          (codes "t0")
          (backend ∷ [])
          (backend ∷ []))
        stranger
        fresh).1
serve-Harmless_example =
    serve-Harmless world deps (codes "https://api.github.com") (codes "t0") (backend ∷ [])
      (backend ∷ []) some stranger fresh unknown

-- A level that is not named is the default, and the path of the relay's URL is not logged.
small_decisions :
    (parse_level (codes "warn") ≡ warn)
    × (parse_level (codes "WARN") ≡ info)
    × (redact_smee_url (λ u. ok (codes "https", codes "smee.io")) (codes "https://smee.io/s3cret")
        ≡ codes "https://smee.io/[redacted]")
    × (exit_status (some (codes "context canceled", true)) ≡ 0)
unfolding parse_level redact_smee_url exit_status
small_decisions = (refl, refl, refl, refl)

-- Without a configuration nothing starts.
nothing_starts : (flags : Flags) → start flags (inr no_repos) ≡ exits 2
unfolding start
nothing_starts flags = refl

-- The loops off: the relay's client and the HTTP server run.
abbrev small_startup : Startup
small_startup = starts cfg deps fresh false (pos 0) none

abbrev at_first : Life
at_first = record {
  canceled = false;
  reconciling = false;
  cleaning = false;
  serving = true;
  untracked = 0;
  phase = following;
}

abbrev at_last : Life
at_last = record at_first {
  canceled = true;
  serving = false;
  untracked = 1;
  phase = exited (exit_status canceled_error) true;
}

-- A signal comes while a request is handled, the client stops before the server does, and the process
-- ends before the handler.
abbrev last_run : Lived at_first at_last
last_run =
    next
      (next
        (next (next (next here (untracked_starts refl (inl refl))) (signal refl))
          (client_ends refl refl))
        (server_ends (shut none) refl refl refl))
      (all_drained canceled_error refl refl refl refl)
