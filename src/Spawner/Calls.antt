-- ===== src/Spawner/Calls.antt =====
-- internal/spawner/spawner.go: the calls that `Spawn` makes.
use autoscaler.Common.{Bool-cases, List, [], arith, inl, inr, refl, ◌∷◌, ◌≡◌, ◌⊎◌}
use autoscaler.Config.{RepoConfig}
use autoscaler.Env.{Env, rand_bytes}
use autoscaler.Spawner.{
  admit, check_and_spawn, count_running, has_idle_matching_runner, inspect_args, launch, ps_args,
  run_args, runner_name, runners_url, signed_headers, spawn, write_pat_env_file,
}
use autoscaler.Text.{Bytes, codes, fields, trim_space}
use autoscaler.World.{
  Event, Fallible-cases, Machine, Request, Spawner, Trace, clock, docker, get, http_do, ok, random,
  remove,
}

abbrev pub blank : Spawner → Spawner
blank sp = record sp { pat = [] }

abbrev env_pattern : Bytes
env_pattern = codes "autoscaler-env-*.env"

-- A docker command that is built, for repositories of a kind, without the token, from the configuration and from answers of the
-- world: the containers that docker listed, random bytes, the name of a temporary file.
pub data IsPublic (e : Env) (sp : Spawner) (Own : RepoConfig → Type 0) (args : List Bytes)
    : Type 0 where
  lists : (repo : RepoConfig) → Own repo → args ≡ ps_args repo.name → IsPublic e sp Own args
  inspects :
      (t : Trace) (repo : RepoConfig)
      → Own repo
      → args ≡ inspect_args (fields (trim_space (e.run_docker t (ps_args repo.name)).stdout))
      → IsPublic e sp Own args
  launches :
      (repo : RepoConfig) (t t' : Trace) (path : Bytes)
      → Own repo
      → e.make_temp t' env_pattern ≡ ok path
      → args ≡ run_args (blank sp) repo (runner_name repo (e.read_random t 4)) (e.clean_path path)
      → IsPublic e sp Own args

-- A URL that is built without the token, for such a repository.
pub data IsPublicUrl (sp : Spawner) (Own : RepoConfig → Type 0) (url : Bytes) : Type 0 where
  runners_of :
      (repo : RepoConfig)
      → Own repo
      → url ≡ runners_url (blank sp) repo.name
      → IsPublicUrl sp Own url

-- A call of `Spawn` whose command or URL does not depend on the token.
abbrev pub IsDiscreet : Env → Spawner → (RepoConfig → Type 0) → Event → Type 0
IsDiscreet e sp Own (docker args a) = IsPublic e sp Own args
IsDiscreet e sp Own (http_do req a) = (req.method ≡ get) × IsPublicUrl sp Own req.url
IsDiscreet e sp Own (clock n) = ⊥
IsDiscreet e sp Own ev = Unit

module _ (e : Env) (sp : Spawner) where
  run_args-IsPublic :
      (Own : RepoConfig → Type 0) (repo : RepoConfig) (t t' : Trace) (path : Bytes)
      → Own repo
      → e.make_temp t' env_pattern ≡ ok path
      → IsPublic e sp Own
          (run_args sp repo (runner_name repo (e.read_random t 4)) (e.clean_path path))
  unfolding run_args
  run_args-IsPublic Own repo t t' path own made = launches repo t t' path own made refl

  runners_url-IsPublicUrl :
      (Own : RepoConfig → Type 0) (repo : RepoConfig)
      → Own repo
      → IsPublicUrl sp Own (runners_url sp repo.name)
  unfolding runners_url
  runners_url-IsPublicUrl Own repo own = runners_of repo own refl

  -- What these pieces add to the history.
  has_idle-trace :
      (repo : RepoConfig) (m : Machine)
      → let t = (has_idle_matching_runner e sp repo m).1.trace in
        let url = runners_url sp repo.name in
        let req : Request = record { method = get; url = url; headers = signed_headers sp } in
        (t ≡ m.trace) ⊎ (t ≡ http_do req (e.do_http m.trace req) ∷ m.trace)
  unfolding has_idle_matching_runner
  has_idle-trace repo m = ground arith

  count_running-trace :
      (repo : Bytes) (m : Machine)
      → let t = (count_running e sp repo m).1.trace in
        let listed = docker (ps_args repo) (e.run_docker m.trace (ps_args repo)) ∷ m.trace in
        let ids = fields (trim_space (e.run_docker m.trace (ps_args repo)).stdout) in
        (t ≡ listed)
        ⊎ (t ≡ docker (inspect_args ids) (e.run_docker listed (inspect_args ids)) ∷ listed)
  unfolding count_running
  count_running-trace repo m = ground arith

  -- The file that `docker run` reads is one that was just made.
  write_pat_env_file_lem :
      (m : Machine) {env_file path : Bytes}
      → (write_pat_env_file e sp m).0 ≡ ok (env_file, path)
      → (e.make_temp m.trace env_pattern ≡ ok path) × (env_file ≡ e.clean_path path)
  unfolding write_pat_env_file
  write_pat_env_file_lem m h = (ground arith, ground arith)

  launch-trace :
      (repo : RepoConfig) (m : Machine)
      → let suffix = rand_bytes e 4 m in
        let file = write_pat_env_file e sp suffix.1 in
        let t = (launch e sp repo m).1.trace in
        (t ≡ suffix.1.trace)
        ⊎ (t ≡ file.1.trace)
        ⊎ ((path : Bytes) × (e.make_temp suffix.1.trace env_pattern ≡ ok path)
            × (let args = run_args sp repo (runner_name repo suffix.0) (e.clean_path path) in
                let ran = docker args (e.run_docker file.1.trace args) ∷ file.1.trace in
                t ≡ remove path (e.remove_path ran path) ∷ ran))
  unfolding launch
  launch-trace repo m =
      let suffix = rand_bytes e 4 m in
      let file = write_pat_env_file e sp suffix.1 in
      elim (Bool-cases sp.dry_run) [
        | inl dry ↦ inl (ground (arith, dry))
        | inr real ↦ elim (Fallible-cases file.0) [
          | inr (x, failed) ↦ inr (inl (ground (arith, real, failed)))
          | inl ((env_file, path), written) ↦
              let made = write_pat_env_file_lem suffix.1 written in
              inr (inr (path, made.0, ground (arith, real, written, made.1)))
        ]
      ]

-- A property of histories that such calls keep.
module _ (e : Env) (sp : Spawner) (Own : RepoConfig → Type 0) (Q : Trace → Type 0)
    (law : (ev : Event) (t : Trace) → IsDiscreet e sp Own ev → Q t → Q (ev ∷ t)) where
  has_idle-Discreet :
      (repo : RepoConfig) (m : Machine)
      → Own repo
      → Q m.trace
      → Q (has_idle_matching_runner e sp repo m).1.trace
  has_idle-Discreet repo m own h = elim (has_idle-trace e sp repo m) [
    | inl same ↦ rw same h
    | inr sent_out ↦ rw sent_out (law _ m.trace (refl, runners_url-IsPublicUrl e sp Own repo own) h)
  ]

  count_running-Discreet :
      (repo : RepoConfig) (m : Machine)
      → Own repo
      → Q m.trace
      → Q (count_running e sp repo.name m).1.trace
  count_running-Discreet repo m own h = elim (count_running-trace e sp repo.name m) [
    | inl listed ↦ rw listed (law _ m.trace (lists repo own refl) h)
    | inr inspected ↦
        rw inspected
          (law _ _ (inspects m.trace repo own refl) (law _ m.trace (lists repo own refl) h))
  ]

  write_pat_env_file-Discreet : (m : Machine) → Q m.trace → Q (write_pat_env_file e sp m).1.trace
  unfolding write_pat_env_file
  write_pat_env_file-Discreet m h = grind (arith, law)

  launch-Discreet :
      (repo : RepoConfig) (m : Machine) → Own repo → Q m.trace → Q (launch e sp repo m).1.trace
  launch-Discreet repo m own h =
      let suffix = rand_bytes e 4 m in
      let written = write_pat_env_file-Discreet suffix.1 (law (random 4 suffix.0) m.trace tt h) in
      elim (launch-trace e sp repo m) [
        | inl dry ↦ rw dry (law (random 4 suffix.0) m.trace tt h)
        | inr (inl failed) ↦ rw failed written
        | inr (inr (path, made, ran)) ↦ rw ran (
            law _ _ tt (
              law _ _ (run_args-IsPublic e sp Own repo m.trace suffix.1.trace path own made)
                written))
      ]

  admit-Discreet :
      (repo : RepoConfig) (m : Machine) → Own repo → Q m.trace → Q (admit e sp repo m).1.trace
  unfolding admit
  admit-Discreet repo m own h = grind (arith, count_running-Discreet repo, launch-Discreet)

  pub spawn-Discreet :
      (repo : RepoConfig) (m : Machine) → Own repo → Q m.trace → Q (spawn e sp repo m).1.trace
  unfolding spawn check_and_spawn
  spawn-Discreet repo m own h = grind (arith, has_idle-Discreet, admit-Discreet)
