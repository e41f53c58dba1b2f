-- ===== src/Cleanup/Sweep/Sums.antt =====
-- Families over the goroutines of internal/cleanup/cleanup.go: one place that changes, and sums.
use autoscaler.Common.{
  Bool-cases, arith, if◌then◌else◌, inl, inr, refl, suc, zero, ℕ, ◌+◌, ◌<◌, ◌==◌, ◌≡◌, ◌≤◌,
}

abbrev pub put {ℓ} : {A : Type ℓ} → (ℕ → A) → ℕ → A → ℕ → A
put f i a j = if i == j then a else f j

module _ {ℓ} {A : Type ℓ} (w : ℕ → A → ℕ) where
  pub sum : ℕ → (ℕ → A) → ℕ
  sum zero f = 0
  sum (suc n) f = sum n f + w n (f n)

  sum-put_above : (n : ℕ) (f : ℕ → A) (i : ℕ) (a : A) → n ≤ i → sum n (put f i a) ≡ sum n f
  unfolding sum
  sum-put_above zero f i a h = refl
  sum-put_above (suc n) f i a h = ground (arith, sum-put_above n f i a)

  -- What one place adds goes over into the sum.
  pub sum-put :
      (n : ℕ) (f : ℕ → A) (i : ℕ) (a : A) → i < n → sum n (put f i a) + w i (f i) ≡ sum n f + w i a
  unfolding sum
  sum-put zero f i a h = absurd (omega arith)
  sum-put (suc n) f i a h = elim (Bool-cases (i == n)) [
    | inl last ↦ ground (arith, sum-put_above n f i a)
    | inr before ↦ ground (arith, sum-put n f i a)
  ]

  pub sum-put_same :
      (n : ℕ) (f : ℕ → A) (i : ℕ) (a : A) → w i a ≡ w i (f i) → i < n → sum n (put f i a) ≡ sum n f
  sum-put_same n f i a same h = omega (arith, sum-put n f i a h, same)

  pub sum-zero : (n : ℕ) (f : ℕ → A) → ((i : ℕ) → w i (f i) ≡ 0) → sum n f ≡ 0
  unfolding sum
  sum-zero zero f h = refl
  sum-zero (suc n) f h = omega (arith, sum-zero n f h, h n)

pub sum_cong {ℓ} :
    {A : Type ℓ} (w v : ℕ → A → ℕ) (n : ℕ) (f : ℕ → A)
    → ((i : ℕ) → i < n → w i (f i) ≡ v i (f i))
    → sum w n f ≡ sum v n f
unfolding sum
sum_cong w v zero f h = refl
sum_cong w v (suc n) f h =
    omega (arith, sum_cong w v n f (λ i below. h i (omega arith)), h n (omega arith))

pub sum-add {ℓ} :
    {A : Type ℓ} (w v : ℕ → A → ℕ) (n : ℕ) (f : ℕ → A)
    → sum (λ i a. w i a + v i a) n f ≡ sum w n f + sum v n f
unfolding sum
sum-add w v zero f = refl
sum-add w v (suc n) f = omega (arith, sum-add w v n f)
