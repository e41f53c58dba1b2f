-- ===== src/Text/Equality.antt =====
-- The comparison of byte strings, and their equality.
use autoscaler.Common.{[], arith, refl, true, ◌↔◌, ◌∷◌, ◌≡◌}
use autoscaler.Text.{Bytes, bytes_eq}

pub eq_of_bytes_eq : (s t : Bytes) → bytes_eq s t ≡ true → s ≡ t
eq_of_bytes_eq [] [] h = refl
eq_of_bytes_eq [] (d ∷ t) h = cc
eq_of_bytes_eq (c ∷ s) [] h = cc
eq_of_bytes_eq (c ∷ s) (d ∷ t) h = ground (arith, eq_of_bytes_eq s t)

pub bytes_eq_refl : (s : Bytes) → bytes_eq s s ≡ true
bytes_eq_refl [] = refl
bytes_eq_refl (c ∷ s) = ground (arith, bytes_eq_refl s)

pub bytes_eq_iff : (s t : Bytes) → (bytes_eq s t ≡ true) ↔ (s ≡ t)
bytes_eq_iff s t = (eq_of_bytes_eq s t, λ e. rw e (bytes_eq_refl t))
