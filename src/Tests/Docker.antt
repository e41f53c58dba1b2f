-- ===== src/Tests/Docker.antt =====
-- A Docker that meets the hypotheses of `Docker`, and the theorems about interleavings over it.
use mathlib.Core.Bool.{false≢true}
use autoscaler.Common.{
  Bool, Bool-cases, List, Option, [], arith, false, if◌then◌else◌, inl, inr, length, none, refl,
  sym, true, ℕ, ◌&&◌, ◌++◌, ◌+◌, ◌||◌, ◌∷◌, ◌≡◌, ◌≢◌, ◌≤◌, ◌⊎◌,
}
use autoscaler.Config.{RepoConfig}
use autoscaler.Spawner.{SpawnError, count_lines, inspect_args, ps_args, repo_label_key, run_args}
use autoscaler.Spawner.Cap.{live}
use autoscaler.Spawner.Disk.{Reach-Accounted, stuck_on_disk}
use autoscaler.Spawner.Docker.{Docker, Fewer, is_run_event}
use autoscaler.Spawner.Goroutine.{advance, finished, queued}
use autoscaler.Spawner.Held.{owns}
use autoscaler.Spawner.Interleaving.{Reach, System, here, initial, lock, move, next}
use autoscaler.Spawner.Liveness.{can_finish}
use autoscaler.Spawner.Mutex.{OneHolder, mutual_exclusion}
use autoscaler.Spawner.Paths.{Leads, Unaided, onward, stay, steps}
use autoscaler.Spawner.Pausing.{IsTurnedAway, Leads-IsTurnedAway}
use autoscaler.Spawner.Progress.{rank}
use autoscaler.Spawner.Runs.{is_run}
use autoscaler.Spawner.Safety.{cap_respected}
use autoscaler.Spawner.Spawned.{CountsRuns, Reach-CountsRuns}
use autoscaler.Spawner.Termination.{own_steps, own_steps-rank}
use autoscaler.Tests.World.{backend, deps, fresh, ran, world}
use autoscaler.Text.{Bytes, bytes_eq, codes, elem, fields, split, trim_space}
use autoscaler.Text.Equality.{eq_of_bytes_eq}
use autoscaler.World.{Event, Trace, docker}

-- The repository of a `docker run`: the value of its second label.
abbrev pub label_of : List Bytes → Bytes
label_of (a ∷ b ∷ c ∷ d ∷ f ∷ g ∷ h ∷ k ∷ l ∷ args) = l
label_of args = []

abbrev pub repo_label : Bytes → Bytes
repo_label repo = repo_label_key ++ (codes "=" ++ repo)

abbrev pub runs_for : Bytes → List Bytes → Bool
runs_for repo args = is_run args && bytes_eq (label_of args) (repo_label repo)

abbrev pub ran_for : Bytes → Trace → Bool
ran_for repo [] = false
ran_for repo (docker args a ∷ t) = runs_for repo args || ran_for repo t
ran_for repo (ev ∷ t) = ran_for repo t

abbrev pub one_if : Bool → List Bytes
one_if true = codes "c" ∷ []
one_if false = []

-- The container that `small_docker` lists runs once a runner was started for the repository.
abbrev pub ids_of : Trace → Bytes → List Bytes
ids_of t repo = one_if (ran_for repo t)

same_ids : (xs : List Bytes) → Fewer xs xs
same_ids xs = record { among = λ x h. h; count = omega arith }

quiet_runs_for :
    (repo : Bytes) (args : List Bytes) → is_run args ≡ false → runs_for repo args ≡ false
quiet_runs_for repo args h = rw h

pub ids_quiet :
    (t : Trace) (ev : Event) (repo : Bytes)
    → is_run_event ev ≡ false
    → Fewer (ids_of t repo) (ids_of (ev ∷ t) repo)
ids_quiet t (docker args a) repo h = rw h (same_ids (ids_of t repo))
ids_quiet t _ repo h = same_ids (ids_of t repo)

pub ids_other :
    (t : Trace) (q : RepoConfig) (name env_file repo : Bytes)
    → q.name ≢ repo
    → let args = run_args deps q name env_file in
      Fewer (ids_of t repo) (ids_of (docker args (world.run_docker t args) ∷ t) repo)
unfolding run_args
ids_other t q name env_file repo h = elim (Bool-cases (bytes_eq q.name repo)) [
  | inl same ↦ absurd (h (eq_of_bytes_eq q.name repo same))
  | inr differs ↦ rw differs (same_ids (ids_of t repo))
]

length-one_if : (b : Bool) → length (one_if b) ≤ 1
length-one_if true = omega arith
length-one_if false = omega arith

ids_listed : (b : Bool) (x : Bytes) → elem x (one_if b) ≡ true → elem x (codes "c" ∷ []) ≡ true
ids_listed true x h = h
ids_listed false x h = cc

ids_printed : (t : Trace) (repo : Bytes) → ran t ≡ false → ran_for repo t ≡ false
ids_printed [] repo h = refl
ids_printed (docker [] x ∷ t) repo h = ids_printed t repo h
ids_printed (docker (a ∷ args) x ∷ t) repo h = ground (arith, ids_printed t repo)
ids_printed (ev ∷ t) repo h = ids_printed t repo h

-- What `docker inspect` answers counts at least the container that runs.
printed :
    (b : Bool) (c : Bool)
    → (b ≡ false → c ≡ false)
    → length (one_if c)
      ≤ count_lines (split (trim_space (if b then codes "running\n" else codes "exited\n")) b'\n')
unfolding split trim_space count_lines
printed true c h = length-one_if c
printed false true h = absurd (false≢true (sym (h refl)))
printed false false h = omega arith

pub docker_adds :
    (t : Trace) (q : RepoConfig) (name env_file : Bytes)
    → let args = run_args deps q name env_file in
      length (ids_of (docker args (world.run_docker t args) ∷ t) q.name)
      ≤ length (ids_of t q.name) + 1
docker_adds t q name env_file =
    let args = run_args deps q name env_file in
    omega (arith, length-one_if (ran_for q.name (docker args (world.run_docker t args) ∷ t)))

pub docker_lists :
    (t : Trace) (repo x : Bytes)
    → let a = world.run_docker t (ps_args repo) in
      a.error ≡ none
      → elem x (ids_of (docker (ps_args repo) a ∷ t) repo) ≡ true
      → elem x (fields (trim_space a.stdout)) ≡ true
unfolding ps_args fields trim_space
docker_lists t repo x fine_answer h = ids_listed (ran_for repo t) x h

pub docker_prints :
    (t : Trace) (repo : Bytes) (ids : List Bytes)
    → let a = world.run_docker t (inspect_args ids) in
      length (ids_of (docker (inspect_args ids) a ∷ t) repo)
      ≤ count_lines (split (trim_space a.stdout) b'\n')
unfolding inspect_args
docker_prints t repo ids = printed (ran t) (ran_for repo t) (ids_printed t repo)

abbrev pub docker_world : Docker world deps
docker_world = record {
  running = ids_of;
  quiet_keeps = ids_quiet;
  other_keeps = ids_other;
  run_adds = docker_adds;
  ps_lists = docker_lists;
  inspect_prints = λ t repo ids fine_answer k. docker_prints t repo ids;
}

-- Every goroutine works for the one repository, whose cap is 1.
abbrev pub jobs : ℕ → RepoConfig
jobs i = backend

abbrev pub one : Bytes → ℕ
one repo = 1

abbrev State : Type 0
State = (s : System) × Reach world deps jobs fresh s

abbrev go : State → ℕ → State
go (s, r) i = (_, next r (move i))

-- Two goroutines pass the pause check, and the first takes the mutex and starts a runner.
entered : State
unfolding advance
entered =
    let s = go (go (initial world deps jobs fresh, here) 0) 1 in (_, next s.1 (lock 0 refl refl))

launched : State
unfolding entered
launched = go (go (go (go (go (go (go (go (go entered 0) 0) 0) 0) 0) 0) 0) 0) 0

launched_runs :
    (live world deps docker_world launched.0.machine.trace (codes "a/b") ≡ 1)
    × (launched.0.pc 1 ≡ queued)
unfolding launched advance ps_args inspect_args run_args fields split trim_space count_lines
launched_runs = (refl, refl)

cap_respected_example : live world deps docker_world launched.0.machine.trace (codes "a/b") ≤ 1
cap_respected_example =
    cap_respected world deps docker_world jobs one (λ i. omega arith) fresh (λ repo. omega arith)
      launched.1 (codes "a/b")

mutual_exclusion_example : OneHolder jobs entered.0
mutual_exclusion_example = mutual_exclusion world deps jobs fresh entered.1

-- Goroutine 1 waits for the mutex that goroutine 0 holds.
own_steps-rank_example : own_steps world deps jobs 1 launched.1 + rank (launched.0.pc 1) ≤ 13
own_steps-rank_example = own_steps-rank world deps jobs fresh 1 launched.1

can_finish_example :
    (last : System) × (path : Leads world deps jobs launched.0 last) × (steps world deps jobs path
      ≤ 24)
    × Unaided world deps jobs path
    × (result : Option SpawnError) × (last.pc 1 ≡ finished result)
can_finish_example = can_finish world deps jobs fresh 1 launched.1

Reach-CountsRuns_example : CountsRuns launched.0.machine
Reach-CountsRuns_example = Reach-CountsRuns world deps refl jobs launched.1 refl

-- Goroutine 0 has started the runner and not yet removed the file.
Reach-Accounted_example :
    ((i : ℕ) × (owns (launched.0.pc i) (codes "/tmp/e") ≡ true))
    ⊎ (stuck_on_disk (codes "/tmp/e") launched.0.machine.trace ≡ true)
unfolding launched entered advance ps_args fields trim_space inspect_args count_lines split run_args
Reach-Accounted_example =
    Reach-Accounted world deps jobs launched.1 tt (λ p. refl) (codes "/tmp/e") refl

-- Goroutine 0 finds the process paused.
abbrev paused_at : System
paused_at =
    initial world deps jobs (record fresh { spawner = record fresh.spawner { paused = true } })

turned_away : (t : System) × Leads world deps jobs paused_at t
turned_away = (_, onward (onward stay (move 0)) (move 1))

Leads-IsTurnedAway_example :
    (turned_away.0.machine.spawner.paused ≡ true) × IsTurnedAway (turned_away.0.pc 0)
unfolding turned_away
Leads-IsTurnedAway_example = Leads-IsTurnedAway world deps jobs turned_away.1 0 tt refl refl
