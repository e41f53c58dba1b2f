-- ===== src/Process/Ledger.antt =====
-- The lifetime counters of the process of cmd/autoscaler/main.go, and its history of calls.
use autoscaler.Cleanup.{rm_args}
use autoscaler.Common.{
  Bool, List, [], arith, false, if◌then◌else◌, refl, suc, ℕ, ℤ, ◌%◌, ◌&&◌, ◌^◌, ◌∷◌, ◌≡◌,
}
use autoscaler.Config.{Config, RepoConfig}
use autoscaler.Env.{Env}
use autoscaler.Process.Actions.{Action, Library, process, process-Holds_any, spawner_of}
use autoscaler.Process.Keeps.{
  Holds, Invariant, IsCommand, Keeps, accepted, asks_created, asks_state, cancel_request, count_if,
  delete_request, lists_all, lists_live, lists_repo, no_content, stops,
}
use autoscaler.Spawner.{inspect_args, new_with_deps, ps_args, run_args, spawn}
use autoscaler.Spawner.Accounts.{spawn-Accounts}
use autoscaler.Spawner.Calls.{IsDiscreet, IsPublic, inspects, launches, lists, spawn-Discreet}
use autoscaler.Spawner.Runs.{is_run, no_error, spawn-Together, started}
use autoscaler.Spawner.Spawned.{increment_lem}
use autoscaler.Text.{Bytes, bytes_eq, codes}
use autoscaler.World.{
  CleanerState, DockerAnswer, Event, Fallible, Machine, Response, Spawner, SpawnerState, Trace,
  clock, delete, docker, get, http_do, post,
}

abbrev pub tally : (Event → Bool) → Trace → ℕ
tally counted [] = 0
tally counted (ev ∷ t) = let n = tally counted t in if counted ev then suc n else n

-- A container that was removed, a runner that was deleted, a run that was cancelled.
abbrev pub is_removal : Event → Bool
is_removal (docker (a ∷ args) x) = bytes_eq a (codes "rm") && no_error x
is_removal ev = false

abbrev pub is_deletion : Event → Bool
is_deletion (http_do req a) = elim req.method [ delete ↦ no_content a | get ↦ false | post ↦ false ]
is_deletion ev = false

abbrev pub is_cancellation : Event → Bool
is_cancellation (http_do req a) = elim req.method [
  | post ↦ accepted a
  | get ↦ false
  | delete ↦ false
]
is_cancellation ev = false

abbrev pub Ledger : Invariant
Ledger t s c =
    (s.total_spawned ≡ started t % 2 ^ 64)
    × (c.local_ghosts_reaped ≡ tally is_removal t % 2 ^ 64)
    × (c.ghosts_deleted ≡ tally is_deletion t % 2 ^ 64)
    × (c.runs_cancelled ≡ tally is_cancellation t % 2 ^ 64)

pub command_lem :
    (Own : RepoConfig → Type 0) (args : List Bytes) (a : DockerAnswer)
    → IsCommand Own args
    → (is_removal (docker args a) ≡ false) × (is_run args ≡ false)
unfolding ps_args inspect_args
command_lem Own args a (lists_repo repo own e) = rw e (refl, refl)
command_lem Own args a (lists_all e) = rw e (refl, refl)
command_lem Own args a (lists_live e) = rw e (refl, refl)
command_lem Own args a (asks_state ids e) = rw e (refl, refl)
command_lem Own args a (asks_created id e) = rw e (refl, refl)
command_lem Own args a (stops name own e) = rw e (refl, refl)

-- An event that the counters of the cleaner do not count.
abbrev Uncounted : Event → Type 0
Uncounted ev = (is_removal ev ≡ false) × (is_deletion ev ≡ false) × (is_cancellation ev ≡ false)

public_lem :
    (e : Env) (sp : Spawner) (Own : RepoConfig → Type 0) (args : List Bytes) (a : DockerAnswer)
    → IsPublic e sp Own args
    → is_removal (docker args a) ≡ false
unfolding ps_args inspect_args run_args
public_lem e sp Own args a (lists repo own h) = rw h refl
public_lem e sp Own args a (inspects t repo own h) = rw h refl
public_lem e sp Own args a (launches repo t t' path own made h) = rw h refl

discreet-Uncounted :
    (e : Env) (sp : Spawner) (Own : RepoConfig → Type 0) (ev : Event)
    → IsDiscreet e sp Own ev
    → Uncounted ev
discreet-Uncounted e sp Own (docker args a) h = (public_lem e sp Own args a h, refl, refl)
discreet-Uncounted e sp Own (http_do req a) h = ground arith
discreet-Uncounted e sp Own (clock n) h = elim h [ ]
discreet-Uncounted e sp Own _ h = (refl, refl, refl)

-- What a history leaves to the three counters of the cleaner.
abbrev Agrees : Trace → CleanerState → Type 0
Agrees t c =
    (c.local_ghosts_reaped ≡ tally is_removal t % 2 ^ 64)
    × (c.ghosts_deleted ≡ tally is_deletion t % 2 ^ 64)
    × (c.runs_cancelled ≡ tally is_cancellation t % 2 ^ 64)

Uncounted-Agrees :
    (ev : Event) (t : Trace) (c : CleanerState) → Uncounted ev → Agrees t c → Agrees (ev ∷ t) c
Uncounted-Agrees ev t c (a, b, d) h = rw (a, b, d) h

commands-Ledger :
    (Own : RepoConfig → Type 0) (args : List Bytes) (a : DockerAnswer) (t : Trace)
    (s : SpawnerState) (c : CleanerState)
    → IsCommand Own args
    → Ledger t s c
    → Ledger (docker args a ∷ t) s c
commands-Ledger Own args a t s c known h = ground (arith, command_lem Own args a known)

cancels-Ledger :
    (sp : Spawner) (repo : Bytes) (id : ℤ) (a : Fallible Response) (t : Trace) (s : SpawnerState)
    (c : CleanerState)
    → Ledger t s c
    → Ledger
        (http_do (cancel_request sp repo id) a ∷ t)
        s
        (record c { runs_cancelled = count_if (accepted a) c.runs_cancelled })
cancels-Ledger sp repo id a t s c h =
    ground (arith, increment_lem c.runs_cancelled (tally is_cancellation t))

deletes-Ledger :
    (sp : Spawner) (repo : Bytes) (id : ℤ) (a : Fallible Response) (t : Trace) (s : SpawnerState)
    (c : CleanerState)
    → Ledger t s c
    → Ledger
        (http_do (delete_request sp repo id) a ∷ t)
        s
        (record c { ghosts_deleted = count_if (no_content a) c.ghosts_deleted })
deletes-Ledger sp repo id a t s c h =
    ground (arith, increment_lem c.ghosts_deleted (tally is_deletion t))

removes-Ledger :
    (id : Bytes) (a : DockerAnswer) (t : Trace) (s : SpawnerState) (c : CleanerState)
    → Ledger t s c
    → Ledger
        (docker (rm_args id) a ∷ t)
        s
        (record c { local_ghosts_reaped = count_if (no_error a) c.local_ghosts_reaped })
removes-Ledger id a t s c h =
    ground (arith, increment_lem c.local_ghosts_reaped (tally is_removal t))

module _ (e : Env) (sp : Spawner) (relay : Bytes) (Own : RepoConfig → Type 0)
    (wet : sp.dry_run ≡ false) where
  spawns-Ledger :
      (repo : RepoConfig) (m : Machine)
      → Own repo
      → Holds Ledger m
      → Holds Ledger (spawn e sp repo m).1
  spawns-Ledger repo m own h =
      let kept_rest =
        spawn-Discreet e sp Own (λ t. Agrees t m.cleaner)
          (λ ev t d. Uncounted-Agrees ev t m.cleaner (discreet-Uncounted e sp Own ev d)) repo m own
          (h.1, h.2, h.3) in
      let together = spawn-Together e sp repo m wet in
      let accounts = spawn-Accounts e sp repo m in
      ground (
        arith,
        kept_rest,
        together,
        accounts,
        increment_lem m.spawner.total_spawned (started m.trace),
      )

  Ledger-Keeps : Keeps e sp relay Own Ledger
  Ledger-Keeps = record {
    commands = commands-Ledger Own;
    fetches = λ url headers a t s c known h. h;
    relays = λ a t s c h. h;
    reads_clock = λ n t s c h. h;
    cancels = λ repo id a t s c own h. cancels-Ledger sp repo.name id a t s c h;
    deletes = λ repo id a t s c own h. deletes-Ledger sp repo.name id a t s c h;
    removes = removes-Ledger;
    summarises = λ x t s c h. h;
    pauses = λ p t s c h. h;
    reconciles = λ t s c h. h;
    spawns = spawns-Ledger;
  }

-- However the connections, ticks and requests of the process follow one another, each to its end,
-- and whatever the world answers: outside of a dry run the lifetime counters are, up to 64 bits,
-- the numbers of containers that were started, of containers that were removed, of runners that
-- were deleted and of runs that were cancelled, by the answers that Docker and GitHub gave.
pub process-Ledger :
    (e : Env) (lib : Library) (cfg : Config) (actions : List Action)
    → Holds Ledger (process e lib cfg false actions)
unfolding new_with_deps
process-Ledger e lib cfg actions =
    process-Holds_any e lib cfg false Ledger
      (Ledger-Keeps e (spawner_of e lib cfg false) cfg.smee_url (λ repo. Unit) refl)
      (refl, refl, refl, refl) actions
