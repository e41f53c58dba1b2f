-- ===== src/Spawner/Steps.antt =====
-- What one step of a goroutine does to the history and to its own place.
use autoscaler.Common.{
  Bool, List, Option, Option-cases, [], arith, false, inl, inr, none, pos, refl, some, subst, true,
  ◌++◌, ◌+◌, ◌∷◌, ◌≡◌, ◌≢◌, ◌≤ℤ◌, ◌⊎◌,
}
use autoscaler.Config.{RepoConfig}
use autoscaler.Env.{Env}
use autoscaler.Spawner.{
  SpawnError, count_lines, docker_run_failed, has_idle_matching_runner, inspect_args, ps_args,
  run_args, runners_url, signed_headers,
}
use autoscaler.Spawner.Docker.{is_run_event}
use autoscaler.Spawner.Goroutine.{
  Pc, advance, check_idle, checking, closing, creating, discarding, failing, finished,
  inspect_containers, inspecting, judge, launching, leaving, list_containers, listing, moding,
  naming, queued, ready, removing, run_container, writing,
}
use autoscaler.Text.{Bytes, codes, fields, split, trim_space}
use autoscaler.World.{
  Event, Machine, Request, Spawner, Trace, chmod, close, create_temp, docker, get, http_do, random,
  write_string,
}

-- Between `mu.Lock()` and `mu.Unlock()`.
abbrev pub holds : Pc → Bool
holds ready = false
holds queued = false
holds (finished result) = false
holds pc = true

-- Behind the cap check, and before the end of `docker run`.
abbrev pub admitted : Pc → Bool
admitted naming = true
admitted (creating name) = true
admitted (moding name path) = true
admitted (writing name path) = true
admitted (closing name path) = true
admitted (launching name env_file path) = true
admitted pc = false

-- No call, or one that is no `docker run`.
abbrev pub Adds : Trace → Trace → Type 0
Adds t t' = (t' ≡ t) ⊎ ((ev : Event) × (t' ≡ ev ∷ t) × (is_run_event ev ≡ false))

module _ (e : Env) (sp : Spawner) (repo : RepoConfig) where
  has_idle-Adds : (m : Machine) → Adds m.trace (has_idle_matching_runner e sp repo m).1.trace
  unfolding has_idle_matching_runner
  has_idle-Adds m =
      let url = runners_url sp repo.name in
      let req : Request = record { method = get; url = url; headers = signed_headers sp } in
      elim (Option-cases (e.url_error url)) [
        | inl h ↦ inr (http_do req (e.do_http m.trace req), ground arith, refl)
        | inr (x, h) ↦ inl (ground arith)
      ]

  check_idle-Adds : (m : Machine) → Adds m.trace (check_idle e sp repo m).1.trace
  unfolding check_idle
  check_idle-Adds m = subst (Adds m.trace) (trace_eq m) (has_idle-Adds m)
    where
      trace_eq :
          (m : Machine)
          → (has_idle_matching_runner e sp repo m).1.trace ≡ (check_idle e sp repo m).1.trace
      trace_eq m = ground arith

  pub list_containers-Adds :
      (m : Machine)
      → (list_containers e sp repo m).1.trace
        ≡ docker (ps_args repo.name) (e.run_docker m.trace (ps_args repo.name)) ∷ m.trace
  unfolding list_containers judge
  list_containers-Adds m = ground arith

  pub inspect_containers-Adds :
      (ids : List Bytes) (m : Machine)
      → (inspect_containers e sp repo ids m).1.trace
        ≡ docker (inspect_args ids) (e.run_docker m.trace (inspect_args ids)) ∷ m.trace
  unfolding inspect_containers judge
  inspect_containers-Adds ids m = ground arith

  pub run_container-trace :
      (name env_file path : Bytes) (m : Machine)
      → let args = run_args sp repo name env_file in
        (run_container e sp repo name env_file path m).1.trace
        ≡ docker args (e.run_docker m.trace args) ∷ m.trace
  unfolding run_container
  run_container-trace name env_file path m = ground arith

  pub run_container-removing :
      (name env_file path : Bytes) (m : Machine)
      → (r : Option SpawnError) × ((run_container e sp repo name env_file path m).0
          ≡ removing path r)
  unfolding run_container
  run_container-removing name env_file path m =
      let a = e.run_docker m.trace (run_args sp repo name env_file) in
      elim (Option-cases a.error) [
        | inl h ↦ (none, ground arith)
        | inr (x, h) ↦ (some (docker_run_failed x (trim_space a.stderr)), ground arith)
      ]

  -- Only the step before `docker run` issues it.
  pub advance-Adds :
      (pc : Pc) (m : Machine)
      → ((name env_file path : Bytes) → pc ≢ launching name env_file path)
      → Adds m.trace (advance e sp repo pc m).1.trace
  unfolding advance ps_args inspect_args
  advance-Adds ready m h = inl (ground arith)
  advance-Adds queued m h = inl refl
  advance-Adds checking m h = check_idle-Adds m
  advance-Adds listing m h = inr (_, list_containers-Adds m, refl)
  advance-Adds (inspecting ids) m h = inr (_, inspect_containers-Adds ids m, refl)
  advance-Adds naming m h = inr (random 4 (e.read_random m.trace 4), ground arith, refl)
  advance-Adds (creating name) m h =
      let pattern = codes "autoscaler-env-*.env" in
      inr (create_temp pattern (e.make_temp m.trace pattern), ground arith, refl)
  advance-Adds (moding name path) m h =
      inr (chmod path 384 (e.set_mode m.trace path 384), ground arith, refl)
  advance-Adds (writing name path) m h =
      let text = codes "ACCESS_TOKEN=" ++ (sp.pat ++ codes "\n") in
      inr (write_string path text (e.write_file m.trace path text), ground arith, refl)
  advance-Adds (closing name path) m h =
      inr (close path (e.close_file m.trace path), ground arith, refl)
  advance-Adds (discarding path x) m h = inr (_, refl, refl)
  advance-Adds (failing path x) m h = inr (_, refl, refl)
  advance-Adds (launching name env_file path) m h = absurd (h name env_file path refl)
  advance-Adds (removing path result) m h = inr (_, refl, refl)
  advance-Adds (leaving result) m h = inl refl
  advance-Adds (finished result) m h = inl refl

  -- A step outside of the mutex operations neither takes nor gives back the mutex.
  pub advance-holds : (pc : Pc) (m : Machine) → holds (advance e sp repo pc m).0 ≡ holds pc
  unfolding advance check_idle list_containers inspect_containers judge run_container
  advance-holds ready m = ground arith
  advance-holds checking m = ground arith
  advance-holds listing m = ground arith
  advance-holds (inspecting ids) m = ground arith
  advance-holds naming m = ground arith
  advance-holds (creating name) m = ground arith
  advance-holds (moding name path) m = ground arith
  advance-holds (writing name path) m = ground arith
  advance-holds (closing name path) m = ground arith
  advance-holds (launching name env_file path) m = ground arith
  advance-holds _ m = refl

  -- Behind `docker ps` only an empty list and a positive cap admit at once.
  pub list_containers-admitted :
      (m : Machine)
      → admitted (list_containers e sp repo m).0 ≡ true
      → let a = e.run_docker m.trace (ps_args repo.name) in
        (a.error ≡ none) × (fields (trim_space a.stdout) ≡ []) × (pos 1 ≤ℤ repo.max_concurrency)
  unfolding list_containers judge
  list_containers-admitted m h = (ground arith, ground arith, ground arith)

  pub list_containers-inspecting :
      (m : Machine) (ids : List Bytes)
      → (list_containers e sp repo m).0 ≡ inspecting ids
      → let a = e.run_docker m.trace (ps_args repo.name) in
        (a.error ≡ none) × (fields (trim_space a.stdout) ≡ ids)
  unfolding list_containers judge
  list_containers-inspecting m ids h = (ground arith, ground arith)

  -- Behind `docker inspect` only a count below the cap admits.
  pub inspect_containers-admitted :
      (m : Machine) (ids : List Bytes)
      → admitted (inspect_containers e sp repo ids m).0 ≡ true
      → let a = e.run_docker m.trace (inspect_args ids) in
        (a.error ≡ none)
        × (pos (count_lines (split (trim_space a.stdout) b'\n') + 1) ≤ℤ repo.max_concurrency)
  unfolding inspect_containers judge
  inspect_containers-admitted m ids h = (ground arith, ground arith)

  -- Only the answer of `docker ps` leads to `docker inspect`.
  pub advance-inspecting :
      (pc : Pc) (m : Machine) (ids : List Bytes)
      → (advance e sp repo pc m).0 ≡ inspecting ids
      → pc ≡ listing
  unfolding advance check_idle inspect_containers judge run_container
  advance-inspecting listing m ids h = refl
  advance-inspecting _ m ids h = ground arith

  -- A goroutine is admitted by the answers about the containers, or was before.
  pub advance-admitted :
      (pc : Pc) (m : Machine)
      → admitted (advance e sp repo pc m).0 ≡ true
      → (pc ≡ listing) ⊎ ((ids : List Bytes) × (pc ≡ inspecting ids)) ⊎ (admitted pc ≡ true)
  unfolding advance check_idle run_container
  advance-admitted listing m h = inl refl
  advance-admitted (inspecting ids) m h = inr (inl (ids, refl))
  advance-admitted naming m h = inr (inr refl)
  advance-admitted (creating name) m h = inr (inr refl)
  advance-admitted (moding name path) m h = inr (inr refl)
  advance-admitted (writing name path) m h = inr (inr refl)
  advance-admitted (closing name path) m h = inr (inr refl)
  advance-admitted _ m h = ground arith
