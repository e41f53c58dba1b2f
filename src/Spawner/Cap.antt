-- ===== src/Spawner/Cap.antt =====
-- What a goroutine in `Spawn` knows of the containers of its repository, step by step.
use autoscaler.Common.{
  List, [], arith, false, inl, inr, length, pos, refl, subst, sym, true, ℕ, ◌+◌, ◌∷◌, ◌≡◌, ◌≤ℤ◌,
}
use autoscaler.Config.{RepoConfig}
use autoscaler.Env.{Env}
use autoscaler.Spawner.{inspect_args, ps_args}
use autoscaler.Spawner.Docker.{Docker, Fewer}
use autoscaler.Spawner.Goroutine.{
  Pc, advance, inspect_containers, inspecting, launching, list_containers, listing,
}
use autoscaler.Spawner.Steps.{
  Adds, admitted, advance-admitted, advance-inspecting, holds, inspect_containers-Adds,
  inspect_containers-admitted, list_containers-Adds, list_containers-admitted,
  list_containers-inspecting, run_container-removing,
}
use autoscaler.Text.{Bytes, elem}
use autoscaler.Text.Equality.{bytes_eq_refl}
use autoscaler.World.{Machine, Spawner, Trace, docker}

module _ (e : Env) (sp : Spawner) (d : Docker e sp) where
  abbrev pub live : Trace → Bytes → ℕ
  live t repo = length (d.running t repo)

  -- What a goroutine knows about the containers of its repository: those that run are in its list,
  -- and once it is admitted there is room for one more.
  pub record Knows (t : Trace) (repo : RepoConfig) (pc : Pc) : Type 0 where
    pub covers :
        (ids : List Bytes)
        → pc ≡ inspecting ids
        → (x : Bytes) → elem x (d.running t repo.name) ≡ true
        → elem x ids ≡ true
    pub room : admitted pc ≡ true → pos (live t repo.name + 1) ≤ℤ repo.max_concurrency

  abbrev pub Shrinks : Trace → Trace → Bytes → Type 0
  Shrinks t t' repo = Fewer (d.running t repo) (d.running t' repo)

  pub Adds-Shrinks : {t t' : Trace} (repo : Bytes) → Adds t t' → Shrinks t t' repo
  Adds-Shrinks {t} {t'} repo (inl h) = rw h (record { among = λ x k. k; count = omega arith })
  Adds-Shrinks {t} {t'} repo (inr (ev, h, q)) = rw h (d.quiet_keeps t ev repo q)

  pub Knows-Shrinks :
      (t t' : Trace) (repo : RepoConfig) (pc : Pc)
      → Shrinks t t' repo.name
      → Knows t repo pc
      → Knows t' repo pc
  Knows-Shrinks t t' repo pc f k = record {
    covers = λ ids h x l. k.covers ids h x (f.among x l);
    room = λ a. omega (arith, k.room a, f.count);
  }

  none_of_elem : (xs : List Bytes) → ((x : Bytes) → elem x xs ≡ true → ⊥) → length xs ≡ 0
  none_of_elem [] h = refl
  none_of_elem (x ∷ xs) h = absurd (h x (ground (arith, bytes_eq_refl x)))

  module _ (repo : RepoConfig) (m : Machine) where
    abbrev after_ps : Trace
    after_ps = docker (ps_args repo.name) (e.run_docker m.trace (ps_args repo.name)) ∷ m.trace

    room_after_ps :
        admitted (list_containers e sp repo m).0 ≡ true
        → pos (live after_ps repo.name + 1) ≤ℤ repo.max_concurrency
    room_after_ps h =
        let (fine, empty, positive) = list_containers-admitted e sp repo m h in
        let idle : live after_ps repo.name ≡ 0 = none_of_elem (d.running after_ps repo.name) (λ x l.
          let found = d.ps_lists m.trace repo.name x fine l in
          let lost : elem x [] ≡ true = rw empty at found in cc) in
        omega (arith, positive, idle)

    room_after_inspect :
        (ids : List Bytes)
        → Knows m.trace repo (inspecting ids)
        → admitted (inspect_containers e sp repo ids m).0 ≡ true
        → let t = docker (inspect_args ids) (e.run_docker m.trace (inspect_args ids)) ∷ m.trace in
          pos (live t repo.name + 1) ≤ℤ repo.max_concurrency
    room_after_inspect ids k h =
        let (fine, below) = inspect_containers-admitted e sp repo m ids h in
        omega (arith, below, d.inspect_prints m.trace repo.name ids fine (k.covers ids refl))

    -- What a step that admits leaves room for.
    abbrev Room : Pc → Type 0
    Room pc =
        Knows m.trace repo pc
        → Shrinks m.trace (advance e sp repo pc m).1.trace repo.name
        → admitted (advance e sp repo pc m).0 ≡ true
        → pos (live (advance e sp repo pc m).1.trace repo.name + 1) ≤ℤ repo.max_concurrency

    Room-listing : Room listing
    unfolding advance
    Room-listing k f h = rw (list_containers-Adds e sp repo m) (room_after_ps h)

    Room-inspecting : (ids : List Bytes) → Room (inspecting ids)
    unfolding advance
    Room-inspecting ids k f h =
        rw (inspect_containers-Adds e sp repo ids m) (room_after_inspect ids k h)

    advance-Room : (pc : Pc) → Room pc
    advance-Room pc k f h = elim (advance-admitted e sp repo pc m h) [
      | inl l ↦ subst Room (sym l) Room-listing k f h
      | inr (inl (ids, l)) ↦ subst Room (sym l) (Room-inspecting ids) k f h
      | inr (inr a) ↦ omega (arith, k.room a, f.count)
    ]

    -- What a step that leads to `docker inspect` has listed.
    abbrev Lists : Pc → Type 0
    Lists pc =
        (ids : List Bytes)
        → (advance e sp repo pc m).0 ≡ inspecting ids
        → (x : Bytes) → elem x (d.running (advance e sp repo pc m).1.trace repo.name) ≡ true
        → elem x ids ≡ true

    Lists-listing : Lists listing
    unfolding advance
    Lists-listing ids h x l =
        let (fine, listed) = list_containers-inspecting e sp repo m ids h in
        let found =
          d.ps_lists m.trace repo.name x fine (rw (list_containers-Adds e sp repo m) at l) in
        rw listed at found

    advance-covers : (pc : Pc) → Lists pc
    advance-covers pc ids h =
        subst Lists (sym (advance-inspecting e sp repo pc m ids h)) Lists-listing ids h

    pub advance-Knows :
        (pc : Pc)
        → Shrinks m.trace (advance e sp repo pc m).1.trace repo.name
        → Knows m.trace repo pc
        → Knows (advance e sp repo pc m).1.trace repo (advance e sp repo pc m).0
    advance-Knows pc f k = record { covers = advance-covers pc; room = λ h. advance-Room pc k f h }

    pub Knows-launched :
        (name env_file path : Bytes) (t : Trace)
        → Knows t repo (advance e sp repo (launching name env_file path) m).0
    unfolding advance
    Knows-launched name env_file path t =
        let (r, h) = run_container-removing e sp repo name env_file path m in
        rw h (record { covers = λ ids l. cc; room = λ l. cc })

  pub Knows-idle : (t : Trace) (repo : RepoConfig) (pc : Pc) → holds pc ≡ false → Knows t repo pc
  Knows-idle t repo pc h = record { covers = λ ids l. ground arith; room = λ l. ground arith }
