-- ===== src/Main/Ending.antt =====
-- cmd/autoscaler/main.go: the runs of the process up to its end.
use autoscaler.Common.{Bool, Option, false, none, some, true, ℕ, ◌+◌, ◌≡◌, ◌≤◌, ◌⊎◌}
use autoscaler.Main.{exit_status}
use autoscaler.Main.Lifecycle.{
  Life, LifeStep, Phase, draining, exited, following, signal, untracked_ends, untracked_starts,
}

-- The runs of a process that has started.
pub data Lived (at_start : Life) : Life → Type 0 where
  here : Lived at_start at_start
  next : {s t : Life} → Lived at_start s → LifeStep s t → Lived at_start t

-- The steps of a run, without signals and without those of goroutines that nobody waits for.
abbrev moves_of : {s t : Life} → LifeStep s t → ℕ
moves_of (signal alive) = 0
moves_of (untracked_starts alive by) = 0
moves_of (untracked_ends n alive some_run) = 0
moves_of _ = 1

abbrev pub moves : {s t : Life} → Lived s t → ℕ
moves here = 0
moves (next r st) = moves r + moves_of st

abbrev count_true : Bool → ℕ
count_true true = 1
count_true false = 0

abbrev phase_left : Phase → ℕ
phase_left following = 2
phase_left (draining x) = 1
phase_left (exited status drained) = 0

-- How many moves are left at most.
abbrev pub left : Life → ℕ
left s =
    count_true s.reconciling + (count_true s.cleaning + (count_true s.serving + phase_left s.phase))

-- A process ends only behind a signal, with status 0; unless the timeout ended it, the goroutines of
-- the wait group had ended.
abbrev pub EndsWell : Life → Phase → Type 0
EndsWell s following = Unit
EndsWell s (draining x) = (s.canceled ≡ true) × (exit_status x ≡ 0)
EndsWell s (exited status drained) =
    (s.canceled ≡ true)
    × (status ≡ 0)
    × (drained ≡ true → (s.reconciling ≡ false) × (s.cleaning ≡ false) × (s.serving ≡ false))

-- The process ended, or some goroutine that counts can move.
abbrev pub GoesOn : Life → Type 0
GoesOn s =
    ((status : ℕ) × (drained : Bool) × (s.phase ≡ exited status drained))
    ⊎ ((t : Life) × (st : LifeStep s t) × (moves_of st ≡ 1))

abbrev StartsWell : Option Life → Type 0
StartsWell none = Unit
StartsWell (some l) = EndsWell l l.phase × (left l ≤ 5)
