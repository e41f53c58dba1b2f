-- ===== src/Spawner/Disk.antt =====
-- The env-files of internal/spawner/spawner.go on the disk, where `os.Remove` may fail.
use autoscaler.Common.{
  Bool, Bool-cases, List, [], ap, arith, false, inl, inr, none, not, some, true, ℕ, ◌&&◌, ◌||◌, ◌∷◌,
  ◌≡◌, ◌⊎◌,
}
use autoscaler.Config.{RepoConfig}
use autoscaler.Env.{Env}
use autoscaler.Spawner.Files.{erase, leftover}
use autoscaler.Spawner.Held.{Calm, Reach-AllHeld, owns, present}
use autoscaler.Spawner.Interleaving.{Reach, System}
use autoscaler.Text.{Bytes, bytes_eq, elem}
use autoscaler.Text.Equality.{bytes_eq_iff}
use autoscaler.World.{
  Machine, Spawner, Trace, chmod, clock, close, create_temp, docker, err, http_do, ok, random,
  remove, write_string,
}

-- Whether a temporary file of that path was made and has not been removed since.
abbrev pub on_disk : Bytes → Trace → Bool
on_disk p [] = false
on_disk p (create_temp pattern (ok q) ∷ t) = bytes_eq q p || on_disk p t
on_disk p (remove q none ∷ t) = let there = on_disk p t in not (bytes_eq q p) && there
on_disk p (ev ∷ t) = on_disk p t

-- Whether `os.Remove` has failed for that path.
abbrev pub stuck_on_disk : Bytes → Trace → Bool
stuck_on_disk p [] = false
stuck_on_disk p (remove q (some x) ∷ t) = bytes_eq q p || stuck_on_disk p t
stuck_on_disk p (ev ∷ t) = stuck_on_disk p t

-- A file that is there is one for which nobody has called `os.Remove`, or that call failed.
pub on_disk_cases :
    (p : Bytes) (t : Trace) → on_disk p t ≡ true → (present p t ≡ true) ⊎ (stuck_on_disk p t ≡ true)
on_disk_cases p [] h = cc
on_disk_cases p (create_temp pattern (ok q) ∷ t) h = ground (arith, on_disk_cases p t)
on_disk_cases p (create_temp pattern (err x) ∷ t) h = on_disk_cases p t h
on_disk_cases p (remove q none ∷ t) h = ground (arith, on_disk_cases p t)
on_disk_cases p (remove q (some x) ∷ t) h = ground (arith, on_disk_cases p t)
on_disk_cases p (docker args a ∷ t) h = on_disk_cases p t h
on_disk_cases p (http_do req a ∷ t) h = on_disk_cases p t h
on_disk_cases p (random n x ∷ t) h = on_disk_cases p t h
on_disk_cases p (chmod q n a ∷ t) h = on_disk_cases p t h
on_disk_cases p (write_string q x a ∷ t) h = on_disk_cases p t h
on_disk_cases p (close q a ∷ t) h = on_disk_cases p t h
on_disk_cases p (clock n ∷ t) h = on_disk_cases p t h

elem-erase :
    (p q : Bytes) (ts : List Bytes)
    → bytes_eq q p ≡ false
    → elem p ts ≡ true
    → elem p (erase q ts) ≡ true
elem-erase p q [] differs h = cc
elem-erase p q (x ∷ ts) differs h = ground (
  arith,
  elem-erase p q ts differs,
  bytes_eq_iff x q,
  bytes_eq_iff x p,
  bytes_eq_iff p x,
  bytes_eq_iff q p,
)

-- A file for which nobody has called `os.Remove` is left over.
pub present-leftover : (p : Bytes) (t : Trace) → present p t ≡ true → elem p (leftover t) ≡ true
present-leftover p [] h = cc
present-leftover p (create_temp pattern (ok q) ∷ t) h =
    ground (arith, present-leftover p t, bytes_eq_iff q p, bytes_eq_iff p q)
present-leftover p (create_temp pattern (err x) ∷ t) h = present-leftover p t h
present-leftover p (remove q a ∷ t) h = elim (Bool-cases (bytes_eq q p)) [
  | inl same ↦ ground (arith, same)
  | inr differs ↦
      elem-erase p q (leftover t) differs (present-leftover p t (ground (arith, differs)))
]
present-leftover p (docker args a ∷ t) h = present-leftover p t h
present-leftover p (http_do req a ∷ t) h = present-leftover p t h
present-leftover p (random n x ∷ t) h = present-leftover p t h
present-leftover p (chmod q n a ∷ t) h = present-leftover p t h
present-leftover p (write_string q x a ∷ t) h = present-leftover p t h
present-leftover p (close q a ∷ t) h = present-leftover p t h
present-leftover p (clock n ∷ t) h = present-leftover p t h

-- Where `os.Remove` was called for every file that was made, one is there only if that failed.
pub on_disk-stuck :
    (t : Trace) → leftover t ≡ [] → (p : Bytes) → on_disk p t ≡ true → stuck_on_disk p t ≡ true
on_disk-stuck t none_left p there = elim (on_disk_cases p t there) [
  | inr failed ↦ failed
  | inl unasked ↦ cc (ap (elem p) none_left, present-leftover p t unasked)
]

module _ (e : Env) (sp : Spawner) (job : ℕ → RepoConfig) where
  -- In every state that any interleaving of Spawn calls, pauses and other calls reaches from a
  -- history in which os.Remove was called for every temporary file that was made, where the other
  -- calls make none: each temporary file that is on the disk is held by a call of Spawn that is
  -- between making it and calling os.Remove for it, or a call of os.Remove for its path has failed.
  pub Reach-Accounted :
      {m : Machine} {s : System} (r : Reach e sp job m s)
      → Calm e sp job r
      → ((p : Bytes) → present p m.trace ≡ false)
      → (p : Bytes) → on_disk p s.machine.trace ≡ true
      → ((i : ℕ) × (owns (s.pc i) p ≡ true)) ⊎ (stuck_on_disk p s.machine.trace ≡ true)
  Reach-Accounted {s} r calm clean p there = elim (on_disk_cases p s.machine.trace there) [
    | inr failed ↦ inr failed
    | inl unasked ↦ inl (Reach-AllHeld e sp job r calm clean p unasked)
  ]
