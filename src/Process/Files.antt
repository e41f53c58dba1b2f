-- ===== src/Process/Files.antt =====
-- The temporary files of the process of cmd/autoscaler/main.go, and its dry run.
use autoscaler.Common.{Bool, List, [], refl, true, ◌∙◌, ◌≡◌}
use autoscaler.Config.{Config, RepoConfig}
use autoscaler.Env.{Env}
use autoscaler.Process.Actions.{Action, Library, process, process-Holds_any, spawner_of}
use autoscaler.Process.Keeps.{Holds, Invariant, Keeps}
use autoscaler.Process.Ledger.{command_lem}
use autoscaler.Spawner.{new_with_deps}
use autoscaler.Spawner.Disk.{on_disk, on_disk-stuck, stuck_on_disk}
use autoscaler.Spawner.Files.{AllPrivate, leftover, leftover-spawn, spawn-AllPrivate}
use autoscaler.Spawner.Runs.{attempts, spawn_dry}
use autoscaler.Text.{Bytes}
use autoscaler.World.{Spawner}

-- `os.Remove` was called for every temporary file, and text was written to private files only.
abbrev Tidy : Invariant
Tidy t s c = (leftover t ≡ []) × AllPrivate t

Tidy-Keeps :
    (e : Env) (sp : Spawner) (relay : Bytes) (Own : RepoConfig → Type 0) → Keeps e sp relay Own Tidy
Tidy-Keeps e sp relay Own = record {
  commands = λ args a t s c known h. h;
  fetches = λ url headers a t s c known h. h;
  relays = λ a t s c h. h;
  reads_clock = λ n t s c h. h;
  cancels = λ repo id a t s c own h. h;
  deletes = λ repo id a t s c own h. h;
  removes = λ id a t s c h. h;
  summarises = λ x t s c h. h;
  pauses = λ p t s c h. h;
  reconciles = λ t s c h. h;
  spawns = λ repo m own h. (leftover-spawn e sp repo m ∙ h.0, spawn-AllPrivate e sp repo m h.1);
}

-- The same, and what is still on the disk is there because `os.Remove` failed.
abbrev pub Tidied : Invariant
Tidied t s c =
    (leftover t ≡ []) × ((p : Bytes) → on_disk p t ≡ true → stuck_on_disk p t ≡ true) × AllPrivate t

-- However the connections, ticks and requests of the process follow one another, each to its end,
-- and whatever the world answers: behind each of them os.Remove was called for every temporary file
-- that was made, so that one is still on the disk only if such a call for its path has failed; and
-- each text was written to a file that had just been made and set to mode 0600.
pub process-Tidy :
    (e : Env) (lib : Library) (cfg : Config) (dry_run : Bool) (actions : List Action)
    → Holds Tidied (process e lib cfg dry_run actions)
process-Tidy e lib cfg dry_run actions =
    let sp = spawner_of e lib cfg dry_run in
    let m = process e lib cfg dry_run actions in
    let tidy : Holds Tidy m =
      process-Holds_any e lib cfg dry_run Tidy (Tidy-Keeps e sp cfg.smee_url (λ repo. Unit))
        (refl, tt) actions in
    (tidy.0, on_disk-stuck m.trace tidy.0, tidy.1)

-- No docker run was issued.
abbrev pub NothingRun : Invariant
NothingRun t s c = attempts t ≡ 0

NothingRun-Keeps :
    (e : Env) (sp : Spawner) (relay : Bytes) (Own : RepoConfig → Type 0)
    → sp.dry_run ≡ true
    → Keeps e sp relay Own NothingRun
NothingRun-Keeps e sp relay Own dry = record {
  commands = λ args a t s c known h. rw (command_lem Own args a known).1 h;
  fetches = λ url headers a t s c known h. h;
  relays = λ a t s c h. h;
  reads_clock = λ n t s c h. h;
  cancels = λ repo id a t s c own h. h;
  deletes = λ repo id a t s c own h. h;
  removes = λ id a t s c h. h;
  summarises = λ x t s c h. h;
  pauses = λ p t s c h. h;
  reconciles = λ t s c h. h;
  spawns = λ repo m own h. (spawn_dry e sp repo m dry).0 ∙ h;
}

-- A process that is started with -dry-run never issues docker run, whatever events, ticks and
-- requests reach it.
pub process_dry :
    (e : Env) (lib : Library) (cfg : Config) (actions : List Action)
    → Holds NothingRun (process e lib cfg true actions)
unfolding new_with_deps
process_dry e lib cfg actions =
    process-Holds_any e lib cfg true NothingRun
      (NothingRun-Keeps e (spawner_of e lib cfg true) cfg.smee_url (λ repo. Unit) refl) refl actions
