-- ===== src/Process/Keeps.antt =====
-- What an invariant of the whole process has to withstand: the ways in which the parts change the
-- history, the spawner and the cleaner.
use autoscaler.Cleanup.{created_args, list_args, rm_args}
use autoscaler.Common.{
  Bool, List, false, if◌then◌else◌, leb, ltb, true, ℕ, ℤ, ◌&&◌, ◌++◌, ◌==◌, ◌∷◌, ◌≡◌, ◌⊎◌,
}
use autoscaler.Config.{RepoConfig}
use autoscaler.Env.{Env}
use autoscaler.Portal.{live_args, stop_args}
use autoscaler.Smee.{relay_request}
use autoscaler.Spawner.{inspect_args, ps_args, signed_headers, spawn}
use autoscaler.Spawner.Runs.{no_error}
use autoscaler.Text.{Bytes, codes, decimal, has_prefix}
use autoscaler.World.{
  CleanerState, DockerAnswer, Fallible, Machine, Request, Response, Spawner, SpawnerState, Summary,
  Trace, clock, delete, docker, err, get, http_do, increment, ok, post,
}

-- The docker commands that change no container, and the one that stops one.
pub data IsCommand (Own : RepoConfig → Type 0) (args : List Bytes) : Type 0 where
  lists_repo : (repo : RepoConfig) → Own repo → args ≡ ps_args repo.name → IsCommand Own args
  lists_all : args ≡ list_args → IsCommand Own args
  lists_live : args ≡ live_args → IsCommand Own args
  asks_state : (ids : List Bytes) → args ≡ inspect_args ids → IsCommand Own args
  asks_created : (id : Bytes) → args ≡ created_args id → IsCommand Own args
  stops :
      (name : Bytes)
      → has_prefix name (codes "auto-") ≡ true
      → args ≡ stop_args name
      → IsCommand Own args

abbrev pub repo_url : Spawner → Bytes → Bytes → Bytes
repo_url sp repo rest = sp.api_base ++ (codes "/repos/" ++ (repo ++ rest))

-- What the process reads at GitHub: the runners, the runs and the jobs of such a repository.
pub data IsSource (sp : Spawner) (Own : RepoConfig → Type 0) (url : Bytes) : Type 0 where
  runners_at :
      (repo : RepoConfig)
      → Own repo
      → url ≡ repo_url sp repo.name (codes "/actions/runners?per_page=100")
      → IsSource sp Own url
  runs_at :
      (repo : RepoConfig) (status size : Bytes)
      → Own repo
      → (status ≡ codes "queued") ⊎ (status ≡ codes "in_progress")
      → (size ≡ codes "1") ⊎ (size ≡ codes "100")
      → url
        ≡ repo_url sp repo.name
            (codes "/actions/runs?status=" ++ (status ++ (codes "&per_page=" ++ size)))
      → IsSource sp Own url
  jobs_at :
      (repo : RepoConfig) (id : ℤ)
      → Own repo
      → url
        ≡ repo_url sp repo.name
            (codes "/actions/runs/" ++ (decimal id ++ codes "/jobs?per_page=100"))
      → IsSource sp Own url

abbrev pub cancel_request : Spawner → Bytes → ℤ → Request
cancel_request sp repo id = record {
  method = post;
  url = repo_url sp repo (codes "/actions/runs/" ++ (decimal id ++ codes "/force-cancel"));
  headers = signed_headers sp;
}

abbrev pub delete_request : Spawner → Bytes → ℤ → Request
delete_request sp repo id = record {
  method = delete;
  url = repo_url sp repo (codes "/actions/runners/" ++ decimal id);
  headers = signed_headers sp;
}

-- The answers that a counter counts.
abbrev pub accepted : Fallible Response → Bool
accepted (ok resp) = leb 200 resp.status && ltb resp.status 300
accepted (err x) = false

abbrev pub no_content : Fallible Response → Bool
no_content (ok resp) = resp.status == 204
no_content (err x) = false

abbrev pub count_if : Bool → ℕ → ℕ
count_if counted n = if counted then increment n else n

abbrev pub Invariant : Type 1
Invariant = Trace → SpawnerState → CleanerState → Type 0

abbrev pub Holds : Invariant → Machine → Type 0
Holds P m = P m.trace m.spawner m.cleaner

-- A call that a counter counts stands with its counter. `Own` says which repositories the process
-- works for.
pub record Keeps (e : Env) (sp : Spawner) (relay : Bytes) (Own : RepoConfig → Type 0)
    (P : Invariant) : Type 0 where
  pub commands :
      (args : List Bytes) (a : DockerAnswer) (t : Trace) (s : SpawnerState) (c : CleanerState)
      → IsCommand Own args
      → P t s c
      → P (docker args a ∷ t) s c
  pub fetches :
      (url : Bytes) (headers : List (Bytes × Bytes)) (a : Fallible Response) (t : Trace)
      (s : SpawnerState) (c : CleanerState)
      → IsSource sp Own url
      → P t s c
      → P (http_do (record { method = get; url = url; headers = headers }) a ∷ t) s c
  pub relays :
      (a : Fallible Response) (t : Trace) (s : SpawnerState) (c : CleanerState)
      → P t s c
      → P (http_do (relay_request relay) a ∷ t) s c
  pub reads_clock :
      (n : ℤ) (t : Trace) (s : SpawnerState) (c : CleanerState) → P t s c → P (clock n ∷ t) s c
  pub cancels :
      (repo : RepoConfig) (id : ℤ) (a : Fallible Response) (t : Trace) (s : SpawnerState)
      (c : CleanerState)
      → Own repo
      → P t s c
      → P
          (http_do (cancel_request sp repo.name id) a ∷ t)
          s
          (record c { runs_cancelled = count_if (accepted a) c.runs_cancelled })
  pub deletes :
      (repo : RepoConfig) (id : ℤ) (a : Fallible Response) (t : Trace) (s : SpawnerState)
      (c : CleanerState)
      → Own repo
      → P t s c
      → P
          (http_do (delete_request sp repo.name id) a ∷ t)
          s
          (record c { ghosts_deleted = count_if (no_content a) c.ghosts_deleted })
  pub removes :
      (id : Bytes) (a : DockerAnswer) (t : Trace) (s : SpawnerState) (c : CleanerState)
      → P t s c
      → P
          (docker (rm_args id) a ∷ t)
          s
          (record c { local_ghosts_reaped = count_if (no_error a) c.local_ghosts_reaped })
  pub summarises :
      (x : Summary) (t : Trace) (s : SpawnerState) (c : CleanerState)
      → P t s c
      → P t s (record c { last_summary = x })
  pub pauses :
      (p : Bool) (t : Trace) (s : SpawnerState) (c : CleanerState)
      → P t s c
      → P t (record s { paused = p }) c
  pub reconciles :
      (t : Trace) (s : SpawnerState) (c : CleanerState)
      → P t s c
      → P t (record s { total_reconcile = increment s.total_reconcile }) c
  pub spawns :
      (repo : RepoConfig) (m : Machine) → Own repo → Holds P m → Holds P (spawn e sp repo m).1
