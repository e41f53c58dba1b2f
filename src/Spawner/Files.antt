-- ===== src/Spawner/Files.antt =====
-- internal/spawner/spawner.go: the env-file that holds the token.
use autoscaler.Common.{List, [], arith, false, none, true, ◌∷◌, ◌≡◌}
use autoscaler.Config.{RepoConfig}
use autoscaler.Env.{Env}
use autoscaler.Spawner.{
  admit, check_and_spawn, count_running, has_idle_matching_runner, launch, spawn,
  write_pat_env_file,
}
use autoscaler.Text.{Bytes, bytes_eq}
use autoscaler.Text.Equality.{bytes_eq_refl}
use autoscaler.World.{
  Fallible, Machine, Spawner, Trace, chmod, create_temp, err, ok, remove, write_string,
}

abbrev pub erase : Bytes → List Bytes → List Bytes
erase s [] = []
erase s (t ∷ ts) = elim (bytes_eq t s) [ true ↦ ts | false ↦ t ∷ erase s ts ]

-- The temporary files that a history has made, without a call of `os.Remove` since, the latest first.
abbrev pub leftover : Trace → List Bytes
leftover [] = []
leftover (create_temp pattern (ok path) ∷ t) = path ∷ leftover t
leftover (remove path a ∷ t) = erase path (leftover t)
leftover (ev ∷ t) = leftover t

erase_head : (s : Bytes) (ts : List Bytes) → erase s (s ∷ ts) ≡ ts
erase_head s ts = ground (arith, bytes_eq_refl s)

module _ (e : Env) (sp : Spawner) where
  leftover-has_idle :
      (repo : RepoConfig) (m : Machine)
      → leftover (has_idle_matching_runner e sp repo m).1.trace ≡ leftover m.trace
  unfolding has_idle_matching_runner
  leftover-has_idle repo m = ground arith

  leftover-count_running :
      (repo : Bytes) (m : Machine) → leftover (count_running e sp repo m).1.trace ≡ leftover m.trace
  unfolding count_running
  leftover-count_running repo m = ground arith

  -- What the file calls leave, by the result.
  abbrev after_write : Fallible (Bytes × Bytes) → Trace → List Bytes
  after_write (ok (env_file, path)) t = path ∷ leftover t
  after_write (err x) t = leftover t

  leftover-write_pat_env_file :
      (m : Machine)
      → let r = write_pat_env_file e sp m in leftover r.1.trace ≡ after_write r.0 m.trace
  unfolding write_pat_env_file
  leftover-write_pat_env_file m = grind (arith, erase_head)

  leftover-launch :
      (repo : RepoConfig) (m : Machine) → leftover (launch e sp repo m).1.trace ≡ leftover m.trace
  unfolding launch
  leftover-launch repo m = grind (arith, erase_head, leftover-write_pat_env_file)

  leftover-admit :
      (repo : RepoConfig) (m : Machine) → leftover (admit e sp repo m).1.trace ≡ leftover m.trace
  unfolding admit
  leftover-admit repo m = grind (arith, leftover-count_running, leftover-launch)

  -- Whatever Docker, GitHub and the operating system answer, `Spawn` leaves no temporary file that
  -- was not there before: what it creates it removes.
  pub leftover-spawn :
      (repo : RepoConfig) (m : Machine) → leftover (spawn e sp repo m).1.trace ≡ leftover m.trace
  unfolding spawn check_and_spawn
  leftover-spawn repo m = grind (arith, leftover-has_idle, leftover-admit)

-- The two calls before a write made the file and gave it mode 0600 (384).
abbrev pub Created : Bytes → Trace → Type 0
Created path (create_temp pattern made ∷ t) = made ≡ ok path
Created path t = ⊥

abbrev pub Locked : Bytes → Trace → Type 0
Locked path (chmod p mode failed ∷ t) = (p ≡ path) × (mode ≡ 384) × (failed ≡ none) × Created path t
Locked path t = ⊥

-- Every text was written to a file that had just been made and closed to other users.
abbrev pub AllPrivate : Trace → Type 0
AllPrivate [] = Unit
AllPrivate (write_string path text failed ∷ t) = Locked path t × AllPrivate t
AllPrivate (ev ∷ t) = AllPrivate t

module _ (e : Env) (sp : Spawner) where
  has_idle-AllPrivate :
      (repo : RepoConfig) (m : Machine)
      → AllPrivate m.trace
      → AllPrivate (has_idle_matching_runner e sp repo m).1.trace
  unfolding has_idle_matching_runner
  has_idle-AllPrivate repo m h = ground arith

  count_running-AllPrivate :
      (repo : Bytes) (m : Machine)
      → AllPrivate m.trace
      → AllPrivate (count_running e sp repo m).1.trace
  unfolding count_running
  count_running-AllPrivate repo m h = ground arith

  write_pat_env_file-AllPrivate :
      (m : Machine) → AllPrivate m.trace → AllPrivate (write_pat_env_file e sp m).1.trace
  unfolding write_pat_env_file
  write_pat_env_file-AllPrivate m h = ground arith

  launch-AllPrivate :
      (repo : RepoConfig) (m : Machine)
      → AllPrivate m.trace
      → AllPrivate (launch e sp repo m).1.trace
  unfolding launch
  launch-AllPrivate repo m h = grind (arith, write_pat_env_file-AllPrivate)

  admit-AllPrivate :
      (repo : RepoConfig) (m : Machine)
      → AllPrivate m.trace
      → AllPrivate (admit e sp repo m).1.trace
  unfolding admit
  admit-AllPrivate repo m h = grind (arith, count_running-AllPrivate, launch-AllPrivate)

  -- `Spawn` writes text only to a file that it has just made, and whose mode it has just set to
  -- 0600 with no error.
  pub spawn-AllPrivate :
      (repo : RepoConfig) (m : Machine)
      → AllPrivate m.trace
      → AllPrivate (spawn e sp repo m).1.trace
  unfolding spawn check_and_spawn
  spawn-AllPrivate repo m h = grind (arith, has_idle-AllPrivate, admit-AllPrivate)
