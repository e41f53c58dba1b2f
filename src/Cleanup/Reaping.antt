-- ===== src/Cleanup/Reaping.antt =====
-- internal/cleanup/cleanup.go: which containers are removed from the host, and their counter.
use autoscaler.Cleanup.{
  LocalContainer, Registered, container_age, is_corpse, names_of, reap_all, reap_one,
  remove_container,
}
use autoscaler.Cleanup.Repo.{Moved}
use autoscaler.Common.{
  Bool, Bool-cases, List, Option, Option-cases, [], arith, false, if◌then◌else◌, inl, inr, ltb_ℤ,
  none, refl, some, subst, true, ℕ, ℤ, ◌<◌, ◌^◌, ◌∷◌, ◌≡◌, ◌⊎◌,
}
use autoscaler.Env.{Env}
use autoscaler.Text.{Bytes, bytes_eq, codes, elem}
use autoscaler.World.{Fallible-cases, Machine, Spawner, Trace, docker, ok}

-- The container that a command asks to remove.
abbrev pub rm_target : List Bytes → Option Bytes
rm_target (a ∷ flag ∷ id ∷ []) = if bytes_eq a (codes "rm") then some id else none
rm_target args = none

-- The containers that a history asked Docker to remove, the latest first.
abbrev pub removals : Trace → List Bytes
removals [] = []
removals (docker args a ∷ t) = elim (rm_target args) [
  | none ↦ removals t
  | some id ↦ id ∷ removals t
]
removals (ev ∷ t) = removals t

-- A container that may be removed: it is not running, or its repository was read and does not know
-- its name.
abbrev pub Doomed : Registered → LocalContainer → Type 0
Doomed known lc =
    (is_corpse lc ≡ true)
    ⊎ ((names : List Bytes) × (names_of known lc.repo ≡ some names) × (elem lc.name names ≡ false))

-- The containers removed, each at most once and in order, and only doomed ones.
pub data Reaped (known : Registered) : List LocalContainer → List Bytes → List Bytes → Type 0 where
  done : {before : List Bytes} → Reaped known [] before before
  kept :
      {lc : LocalContainer} {lcs : List LocalContainer} {before after : List Bytes}
      → Reaped known lcs before after
      → Reaped known (lc ∷ lcs) before after
  asked :
      {lc : LocalContainer} {lcs : List LocalContainer} {before after : List Bytes}
      → Doomed known lc
      → Reaped known lcs (lc.id ∷ before) after
      → Reaped known (lc ∷ lcs) before after

abbrev one_if : Bool → ℕ
one_if b = if b then 1 else 0

module _ (e : Env) (sp : Spawner) where
  -- A piece that removes no container and leaves the counters alone.
  abbrev pub Idle : Machine → Machine → Type 0
  Idle m m' = (m'.cleaner ≡ m.cleaner) × (removals m'.trace ≡ removals m.trace)

  container_age-Idle : (id : Bytes) (m : Machine) → Idle m (container_age e sp id m).1
  unfolding container_age
  container_age-Idle id m = ground arith

  remove_container_lem :
      (lc : LocalContainer) (m : Machine)
      → m.cleaner.local_ghosts_reaped < 2 ^ 64
      → let r = remove_container e sp lc m in
        (removals r.1.trace ≡ lc.id ∷ removals m.trace)
        × Moved (one_if r.0) m.cleaner.local_ghosts_reaped r.1.cleaner.local_ghosts_reaped
        × (r.1.cleaner.ghosts_deleted ≡ m.cleaner.ghosts_deleted)
        × (r.1.cleaner.runs_cancelled ≡ m.cleaner.runs_cancelled)
  unfolding remove_container
  remove_container_lem lc m h = ground arith

  -- Old enough for a container that is not registered.
  abbrev pub OldEnough : ℤ → LocalContainer → Machine → Type 0
  OldEnough grace lc m =
      (age : ℤ) × ((container_age e sp lc.id m).0 ≡ ok age) × (ltb_ℤ age grace ≡ false)

  -- Docker was asked to remove this container, and the counter moved if it did.
  abbrev pub Asked : LocalContainer → Machine → Bool × Machine → Type 0
  Asked lc m r =
      (removals r.1.trace ≡ lc.id ∷ removals m.trace)
      × Moved (one_if r.0) m.cleaner.local_ghosts_reaped r.1.cleaner.local_ghosts_reaped
      × (r.1.cleaner.ghosts_deleted ≡ m.cleaner.ghosts_deleted)
      × (r.1.cleaner.runs_cancelled ≡ m.cleaner.runs_cancelled)

  -- Why a container may be removed.
  abbrev pub Why : ℤ → Registered → LocalContainer → Machine → Type 0
  Why grace known lc m =
      (is_corpse lc ≡ true)
      ⊎ ((names : List Bytes) × (names_of known lc.repo ≡ some names)
          × (elem lc.name names ≡ false)
          × OldEnough grace lc m)

  -- What a round of the loop over the containers does: it leaves the host alone, or it asks to
  -- remove this container.
  abbrev pub Round : ℤ → Registered → LocalContainer → Machine → Bool × Machine → Type 0
  Round grace known lc m r = ((r.0 ≡ false) × Idle m r.1) ⊎ (Asked lc m r × Why grace known lc m)

  -- A round of the loop over the containers asks Docker to remove no container but its own, and
  -- only if that container has a state other than running, or if the names registered for its
  -- repository were read, its name is not among them, and its age was read and is at least the
  -- grace. The counter moves by one if the round reaped, and the other counters stay. The counter
  -- is below 2 ^ 64 at the start.
  pub reap_one-Round :
      (grace : ℤ) (known : Registered) (lc : LocalContainer) (m : Machine)
      → m.cleaner.local_ghosts_reaped < 2 ^ 64
      → Round grace known lc m (reap_one e sp grace known lc m)
  unfolding reap_one
  reap_one-Round grace known lc m h =
      let aged = container_age e sp lc.id m in
      elim (Bool-cases (is_corpse lc)) [
        | inl corpse ↦ inr (ground (arith, corpse, remove_container_lem lc m h), inl corpse)
        | inr alive ↦ elim (Option-cases (names_of known lc.repo)) [
          | inl unread ↦ inl (ground (arith, alive, unread))
          | inr (names, read) ↦ elim (Bool-cases (elem lc.name names)) [
            | inl known ↦ inl (ground (arith, alive, read, known))
            | inr unknown ↦ elim (Fallible-cases aged.0) [
              | inr (x, failed) ↦
                  inl (ground (arith, alive, read, unknown, failed, container_age-Idle lc.id m))
              | inl (a, answered) ↦ elim (Bool-cases (ltb_ℤ a grace)) [
                | inl young ↦ inl (
                    ground
                      (arith, alive, read, unknown, answered, young, container_age-Idle lc.id m))
                | inr old ↦ inr (
                  ground (
                    arith,
                    alive,
                    read,
                    unknown,
                    answered,
                    old,
                    container_age-Idle lc.id m,
                    remove_container_lem lc aged.1,
                  ),
                  inr (names, read, unknown, (a, answered, old)),
                )
              ]
            ]
          ]
        ]
      ]

  below_lem :
      (grace : ℤ) (known : Registered) (lc : LocalContainer) (m : Machine)
      → m.cleaner.local_ghosts_reaped < 2 ^ 64
      → (reap_one e sp grace known lc m).1.cleaner.local_ghosts_reaped < 2 ^ 64
  below_lem grace known lc m h = ground (arith, reap_one-Round grace known lc m h)

  Doomed_lem :
      (grace : ℤ) (known : Registered) (lc : LocalContainer) (m : Machine)
      → Why grace known lc m
      → Doomed known lc
  Doomed_lem grace known lc m (inl corpse) = inl corpse
  Doomed_lem grace known lc m (inr (names, read, unknown, old)) = inr (names, read, unknown)

  -- The result of the loop, its counter, and the containers it asks Docker to remove.
  abbrev pub Reaping : Registered → List LocalContainer → Machine → ℕ × Machine → Type 0
  Reaping known lcs m r =
      Moved r.0 m.cleaner.local_ghosts_reaped r.1.cleaner.local_ghosts_reaped
      × Reaped known lcs (removals m.trace) (removals r.1.trace)
      × (r.1.cleaner.ghosts_deleted ≡ m.cleaner.ghosts_deleted)
      × (r.1.cleaner.runs_cancelled ≡ m.cleaner.runs_cancelled)

  -- The loop over the containers asks Docker to remove each container at most once, in order, and
  -- only a container that has a state other than running or whose repository was read without its
  -- name; and its counter moves by the number that it returns. The counter is below 2 ^ 64 at the
  -- start.
  pub reap_all-Reaping :
      (grace : ℤ) (known : Registered) (lcs : List LocalContainer) (m : Machine)
      → m.cleaner.local_ghosts_reaped < 2 ^ 64
      → Reaping known lcs m (reap_all e sp grace known lcs m)
  unfolding reap_all
  reap_all-Reaping grace known [] m h = (ground arith, done, refl, refl)
  reap_all-Reaping grace known (lc ∷ lcs) m h =
      let first = reap_one e sp grace known lc m in
      let after = removals (reap_all e sp grace known lcs first.1).1.trace in
      let small = below_lem grace known lc m h in
      let rest = reap_all-Reaping grace known lcs first.1 small in
      elim (reap_one-Round grace known lc m h) [
        | inl (left, (same, quiet)) ↦ (
          ground (arith, left, same, rest.0),
          kept (subst (λ b. Reaped known lcs b after) quiet rest.1),
          ground (arith, same, rest.2),
          ground (arith, same, rest.3),
        )
        | inr ((asks, moved, others, more), why) ↦ (
          ground (arith, moved, rest.0),
          asked (Doomed_lem grace known lc m why)
              (subst (λ b. Reaped known lcs b after) asks rest.1),
          ground (arith, others, rest.2),
          ground (arith, more, rest.3),
        )
      ]
