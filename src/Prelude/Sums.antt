-- ===== src/Prelude/Sums.antt =====
-- The sum of a weight over the first `n` members of a family.
use Prim.Native.Nat.{ℕ, zero, suc, ◌+◌, ◌≤◌, ◌<◌}
use mathlib.Core.Path.{◌≡◌, refl, ap, sym}
use mathlib.Core.Logic.{◌≢◌}
use native.Mathlib.Decide.{dec_lt, ℕ_discrete}
use native.Mathlib.Omega.{arith}
use illumos_fuse.Prelude.Lists.{update}

module _ {ℓ} {A : Type ℓ} (w : A → ℕ) where
  pub total : ℕ → (ℕ → A) → ℕ
  total zero f = 0
  total (suc n) f = w (f n) + total n f

  pub total-zero : (n : ℕ) (f : ℕ → A) → ((i : ℕ) → i < n → w (f i) ≡ 0) → total n f ≡ 0
  unfolding total
  total-zero zero f h = refl
  total-zero (suc n) f h =
      omega (arith, h n (omega arith), total-zero n f (λ i p. h i (omega arith)))

  -- A member counts towards the sum.
  pub total-mem : (n : ℕ) (f : ℕ → A) (i : ℕ) → i < n → w (f i) ≤ total n f
  unfolding total
  total-mem zero f i h = absurd (omega arith)
  total-mem (suc n) f i h = elim (dec_lt i n) [
    | yes p ↦ omega (arith, total-mem n f i p)
    | no p ↦ ground arith
  ]

  -- Two families that agree below `k` have the same sum.
  total-agree : (k : ℕ) {f g : ℕ → A} → ((j : ℕ) → j < k → g j ≡ f j) → total k g ≡ total k f
  unfolding total
  total-agree zero same = refl
  total-agree (suc k) same =
      omega (arith, ap w (same k (omega arith)), total-agree k (λ j p. same j (omega arith)))

  -- Families that differ at one member differ in their sums by its weight.
  total-change :
      (i k : ℕ) {f g : ℕ → A}
      → ((j : ℕ) → j ≢ i → g j ≡ f j)
      → i < k
      → total k g + w (f i) ≡ total k f + w (g i)
  unfolding total
  total-change i zero same p = absurd (omega arith)
  total-change i (suc k) {f} {g} same p = elim (ℕ_discrete i k) [
    | yes e ↦
        omega (arith, total-agree k (λ j q. same j (omega arith)), ap w (ap f e), ap w (ap g e))
    | no ne ↦ omega (arith, total-change i k same (omega arith), ap w (same k (λ e. ne (sym e))))
  ]

  pub total-update :
      (k : ℕ) (f : ℕ → A) (i : ℕ) (a : A)
      → i < k
      → total k (update f i a) + w (f i) ≡ total k f + w a
  total-update k f i a p =
      ground (arith, total-change i k {f = f} {g = update f i a} (λ j ne. ground arith) p)
