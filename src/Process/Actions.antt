-- ===== src/Process/Actions.antt =====
-- cmd/autoscaler/main.go: the process as a sequence of what its goroutines do, in any order. One
-- action is one connection of the relay's client, one tick of a loop, or one request.
use mathlib.Core.List.{Memᴰ}
use autoscaler.Cleanup.{cleaner_tick}
use autoscaler.Common.{
  All, Bool, Bool-cases, List, Option, [], arith, inl, inr, refl, some, ◌∷◌, ◌≡◌,
}
use autoscaler.Config.{Config, RepoConfig, repo_by_name}
use autoscaler.Env.{Env}
use autoscaler.Main.{new_machine, routes, serve, start}
use autoscaler.Portal.{PortalRequest}
use autoscaler.Process.Keeps.{Holds, Invariant, Keeps}
use autoscaler.Process.Reaping.{tick_with_summary-Holds}
use autoscaler.Process.Reconciling.{tick_filtered-Holds}
use autoscaler.Process.Relaying.{connect-Holds, handle_message-Holds}
use autoscaler.Process.Serving.{routes-Safe}
use autoscaler.Reconciler.{reconciler_tick}
use autoscaler.Smee.{connect, handle_message}
use autoscaler.Spawner.{default_api_base, new_spawner, new_with_deps}
use autoscaler.Text.{Bytes, bytes_eq}
use autoscaler.Webhook.{WorkflowJobEvent}
use autoscaler.World.{Body, Fallible, M, Machine, Spawner, pure, ◌>>◌}

-- The packages around the program: the line scanner, encoding/json, net/textproto and the mux.
pub record Library : Type 0 where
  pub scanned : Body → List Bytes × Option Bytes
  pub json_string : Bytes → Fallible Bytes
  pub raw_object : Bytes → Fallible (List (Bytes × Bytes))
  pub canonical : Bytes → Bytes
  pub unmarshal : Bytes → Fallible WorkflowJobEvent
  pub choose : Bytes → Option Bytes

-- `order` is that of the goroutines of a cleanup tick.
pub data Action : Type 0 where
  connects : Action
  reconciles : Action
  cleans : (order : List RepoConfig) → Action
  serves : (order : List RepoConfig) (r : PortalRequest) → Action

abbrev pub IsConfigured : Config → RepoConfig → Type 0
IsConfigured cfg repo = Memᴰ repo cfg.repos

All-Memᴰ :
    (Q : RepoConfig → Type 0) (rs : List RepoConfig)
    → ((r : RepoConfig) → Memᴰ r rs → Q r)
    → All Q rs
All-Memᴰ Q [] f = tt
All-Memᴰ Q (r ∷ rs) f = (f r (Memᴰ.head refl), All-Memᴰ Q rs (λ q there. f q (Memᴰ.tail there)))

repo_by_name-Memᴰ :
    (rs : List RepoConfig) (name : Bytes) (r : RepoConfig)
    → repo_by_name rs name ≡ some r
    → Memᴰ r rs
unfolding repo_by_name
repo_by_name-Memᴰ [] name r h = cc
repo_by_name-Memᴰ (q ∷ rs) name r h = elim (Bool-cases (bytes_eq q.name name)) [
  | inl same ↦ Memᴰ.head (ground arith)
  | inr other ↦ Memᴰ.tail (repo_by_name-Memᴰ rs name r (ground arith))
]

-- The repositories of a cleanup tick are of a kind.
abbrev pub WorksOn : (RepoConfig → Type 0) → Action → Type 0
WorksOn Own (cleans order) = All Own order
WorksOn Own (serves order r) = All Own order
WorksOn Own a = Unit

module _ (e : Env) (lib : Library) (cfg : Config) (dry_run : Bool) where
  abbrev pub spawner_of : Spawner
  spawner_of = new_spawner cfg.github_pat cfg.runner_image dry_run

  abbrev pub on_message : Bytes → M (Unit {0})
  on_message =
      handle_message lib.json_string lib.raw_object lib.canonical e spawner_of cfg lib.unmarshal

  unfoldable pub act : Action → M (Unit {0})
  act connects = do connect lib.scanned e on_message cfg.smee_url; pure tt
  act reconciles = reconciler_tick e spawner_of default_api_base cfg.repos
  act (cleans order) = cleaner_tick e spawner_of cfg.repos order
  act (serves order r) = do
    serve lib.choose (routes e spawner_of default_api_base cfg.portal_token cfg.repos order) r
    pure tt

  -- The process behind some actions, the latest first in the list.
  unfoldable pub process : List Action → Machine
  process [] = new_machine
  process (a ∷ actions) = (act a (process actions)).1

  -- `Own` holds of the configured repositories.
  module _ (Own : RepoConfig → Type 0) (configured : (r : RepoConfig) → IsConfigured cfg r → Own r)
      (P : Invariant) (k : Keeps e spawner_of cfg.smee_url Own P) where
    All-configured : All Own cfg.repos
    All-configured = All-Memᴰ Own cfg.repos configured

    act-Holds : (a : Action) (m : Machine) → WorksOn Own a → Holds P m → Holds P (act a m).1
    unfolding act new_with_deps
    act-Holds connects m own h =
        connect-Holds e spawner_of cfg.smee_url Own P k on_message
          (handle_message-Holds e spawner_of cfg.smee_url Own P k cfg lib.unmarshal
            (λ name r found. configured r (repo_by_name-Memᴰ cfg.repos name r found))
            lib.json_string lib.raw_object lib.canonical)
          lib.scanned m h
    act-Holds reconciles m own h =
        tick_filtered-Holds e spawner_of cfg.smee_url Own P k [] cfg.repos m All-configured h
    act-Holds (cleans order) m own h =
        tick_with_summary-Holds e spawner_of cfg.smee_url Own P k cfg.repos order m All-configured
          own h
    act-Holds (serves order r) m own h =
        routes-Safe e spawner_of cfg.smee_url Own P k lib.choose cfg.portal_token cfg.repos order
          All-configured own r m h

    -- What holds at the start and withstands every change holds as long as the process runs.
    pub process-Holds :
        Holds P new_machine
        → (actions : List Action) → All (WorksOn Own) actions
        → Holds P (process actions)
    unfolding process
    process-Holds start [] own = start
    process-Holds start (a ∷ actions) (own, others) =
        act-Holds a (process actions) own (process-Holds start actions others)

  All-unit : (rs : List RepoConfig) → All (λ r. Unit {0}) rs
  All-unit [] = tt
  All-unit (r ∷ rs) = (tt, All-unit rs)

  within_unit : (a : Action) → WorksOn (λ r. Unit {0}) a
  within_unit connects = tt
  within_unit reconciles = tt
  within_unit (cleans order) = All-unit order
  within_unit (serves order r) = All-unit order

  All-within_unit : (actions : List Action) → All (WorksOn (λ r. Unit {0})) actions
  All-within_unit [] = tt
  All-within_unit (a ∷ actions) = (within_unit a, All-within_unit actions)

  -- The same for an invariant that does not depend on the repositories.
  pub process-Holds_any :
      (P : Invariant)
      → Keeps e spawner_of cfg.smee_url (λ r. Unit {0}) P
      → Holds P new_machine
      → (actions : List Action) → Holds P (process actions)
  process-Holds_any P k start actions =
      process-Holds (λ r. Unit {0}) (λ r there. tt) P k start actions (All-within_unit actions)
