-- ===== src/World.antt =====
-- What the process shares: the record of the calls that it has made, the answers that it may get
-- from outside, and the monad of its code.
--   `Event` is one call of the world with its answer: `docker` is `DockerExecer.Exec` (and the
-- `dockerOutput` of internal/cleanup), `http_do` is `HTTPDoer.Do`, the others are the calls of
-- package `os` and of crypto/rand that internal/spawner makes.
--   `Env` is the world: Docker, GitHub, the operating system and the decoders of encoding/json
-- are not code of the repository, so they are functions of the history, left open.
use autoscaler.Common.{Bool, List, Option, inl, inr, refl, ℕ, ℤ, ◌%◌, ◌+◌, ◌^◌, ◌∷◌, ◌≡◌, ◌⊎◌}
use autoscaler.Text.{Bytes}

-- The error type of Go's calls: `error` as its text.
pub data Fallible {ℓ} (A : Type ℓ) : Type ℓ where
  ok : A → Fallible A
  err : Bytes → Fallible A

pub Fallible-cases {ℓ} :
    {A : Type ℓ} (r : Fallible A) → ((a : A) × (r ≡ ok a)) ⊎ ((x : Bytes) × (r ≡ err x))
Fallible-cases (ok a) = inl (a, refl)
Fallible-cases (err x) = inr (x, refl)

-- (stdout, stderr, err) of one docker command.
pub record DockerAnswer : Type 0 where
  pub stdout : Bytes
  pub stderr : Bytes
  pub error : Option Bytes

pub data Method : Type 0 where
  get post delete : Method

pub record Request : Type 0 where
  pub method : Method
  pub url : Bytes
  pub headers : List (Bytes × Bytes)

-- What reading a response body yields, and whether it ends in an error.
pub record Body : Type 0 where
  pub content : Bytes
  pub broken : Bool

pub record Response : Type 0 where
  pub status : ℕ
  pub body : Body

pub data Event : Type 0 where
  docker : List Bytes → DockerAnswer → Event
  http_do : Request → Fallible Response → Event
  random : ℕ → Bytes → Event
  create_temp : Bytes → Fallible Bytes → Event
  chmod : Bytes → ℕ → Option Bytes → Event
  write_string : Bytes → Bytes → Option Bytes → Event
  close : Bytes → Option Bytes → Event
  remove : Bytes → Option Bytes → Event
  clock : ℤ → Event

-- The calls made so far, the latest first.
abbrev pub Trace : Type 0
Trace = List Event

-- Lifetime counters are uint64.
abbrev pub increment : ℕ → ℕ
increment n = (n + 1) % 2 ^ 64

-- The mutable fields of `Spawner`.
pub record SpawnerState : Type 0 where
  pub paused : Bool
  pub total_spawned : ℕ
  pub total_cap_hit : ℕ
  pub total_errors : ℕ
  pub total_idle_skip : ℕ
  pub total_reconcile : ℕ
  pub total_paused : ℕ

-- `Summary` of internal/cleanup. The counts of one tick are counts of list elements.
pub record Summary : Type 0 where
  pub repos : ℕ
  pub ghosts_found : ℕ
  pub runs_cancelled : ℕ
  pub ghosts_deleted : ℕ
  pub ghosts_still_stuck : ℕ
  pub local_ghosts_reaped : ℕ
  pub total_ghosts_deleted : ℕ
  pub total_runs_cancelled : ℕ
  pub total_local_ghosts_reaped : ℕ

-- The mutable fields of `Cleaner`; `local_grace` is a `time.Duration` in nanoseconds.
pub record CleanerState : Type 0 where
  pub local_grace : ℤ
  pub ghosts_deleted : ℕ
  pub runs_cancelled : ℕ
  pub local_ghosts_reaped : ℕ
  pub last_summary : Summary

pub record Machine : Type 0 where
  pub trace : Trace
  pub spawner : SpawnerState
  pub cleaner : CleanerState

abbrev pub M : Type 0 → Type 0
M A = Machine → A × Machine

abbrev pub pure : {A : Type 0} → A → M A
pure a m = (a, m)

infixl 5 ◌>>=◌ ◌>>◌
abbrev pub ◌>>=◌ : {A B : Type 0} → M A → (A → M B) → M B
◌>>=◌ x f m = let r = x m in f r.0 r.1

abbrev pub ◌>>◌ : {A B : Type 0} → M A → M B → M B
x >> k = x >>= λ _. k

-- One call of the world is recorded.
abbrev pub emit : Event → M (Unit {0})
emit ev m = (tt, record m { trace = ev ∷ m.trace })

-- The immutable fields of `Spawner`.
pub record Spawner : Type 0 where
  pub pat : Bytes
  pub runner_image : Bytes
  pub dry_run : Bool
  pub api_base : Bytes
