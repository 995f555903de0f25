-- ===== src/Common/Family.antt =====
-- Families indexed by numbers: a change at one index, and sums over the first indices.
use Prim.Native.Nat.{ℕ, zero, suc, ◌+◌, ◌≤◌, ◌<◌}
use mathlib.Core.Path.{◌≡◌, refl}
use mathlib.Core.Logic.{inl, inr}
use mathlib.Core.Bool.{false}
use native.Mathlib.Omega.{arith}
use o_llm.Common.Tests.{nat_eq, nat_eq_iff, Bool-cases, if◌then◌else◌}

abbrev pub replace {ℓ} : {A : Type ℓ} → (ℕ → A) → ℕ → A → ℕ → A
replace f i a j = if nat_eq i j then a else f j

module _ {ℓ} {A : Type ℓ} where
  pub replace_same : (f : ℕ → A) (i : ℕ) (a : A) → replace f i a i ≡ a
  replace_same f i a = rw ((nat_eq_iff i i).1 refl) refl

  pub replace_other : (f : ℕ → A) (i j : ℕ) (a : A) → nat_eq i j ≡ false → replace f i a j ≡ f j
  replace_other f i j a n = rw (n) refl

  -- The sum of a weight over the first `n` members.
  unfoldable pub total : (A → ℕ) → ℕ → (ℕ → A) → ℕ
  total w zero f = 0
  total w (suc n) f = w (f n) + total w n f

  total_above :
      (w : A → ℕ) (n : ℕ) (f : ℕ → A) (i : ℕ) (a : A)
      → n ≤ i
      → total w n (replace f i a) ≡ total w n f
  unfolding total
  total_above w zero f i a h = refl
  total_above w (suc n) f i a h = ground (arith, total_above w n f i a (omega arith))

  pub total-replace :
      (w : A → ℕ) (n : ℕ) (f : ℕ → A) (i : ℕ) (a : A)
      → i < n
      → total w n (replace f i a) + w (f i) ≡ total w n f + w a
  unfolding total
  total-replace w zero f i a h = absurd (omega arith)
  total-replace w (suc n) f i a h = elim (Bool-cases (nat_eq i n)) [
    | inl e ↦ ground (arith, total_above w n f i a)
    | inr e ↦ ground (arith, total-replace w n f i a)
  ]

  pub le-total : (w : A → ℕ) (n : ℕ) (f : ℕ → A) (i : ℕ) → i < n → w (f i) ≤ total w n f
  unfolding total
  le-total w zero f i h = absurd (omega arith)
  le-total w (suc n) f i h = elim (Bool-cases (nat_eq i n)) [
    | inl e ↦ ground arith
    | inr e ↦ ground (arith, le-total w n f i)
  ]

  pub two_le-total :
      (w : A → ℕ) (n : ℕ) (f : ℕ → A) (i j : ℕ)
      → i < n
      → j < n
      → nat_eq i j ≡ false
      → w (f i) + w (f j) ≤ total w n f
  unfolding total
  two_le-total w zero f i j h k d = absurd (omega arith)
  two_le-total w (suc n) f i j h k d = elim (Bool-cases (nat_eq i n)) [
    | inl e ↦ ground (arith, le-total w n f j)
    | inr e ↦ elim (Bool-cases (nat_eq j n)) [
      | inl g ↦ ground (arith, le-total w n f i)
      | inr g ↦ ground (arith, two_le-total w n f i j)
    ]
  ]

  -- A positive sum has a positive member.
  pub total_inv :
      (w : A → ℕ) (n : ℕ) (f : ℕ → A) → 0 < total w n f → (i : ℕ) × (i < n) × (0 < w (f i))
  unfolding total
  total_inv w zero f h = absurd (omega arith)
  total_inv w (suc n) f h = elim (Bool-cases (nat_eq (w (f n)) 0)) [
    | inl e ↦ let (i, l, p) = total_inv w n f (ground arith) in (i, omega arith, p)
    | inr e ↦ (n, omega arith, ground arith)
  ]

  pub total_zero : (w : A → ℕ) (n : ℕ) (a : A) → w a ≡ 0 → total w n (λ _. a) ≡ 0
  unfolding total
  total_zero w zero a h = refl
  total_zero w (suc n) a h = omega (arith, total_zero w n a h)

  pub total_less :
      (w : A → ℕ) (n : ℕ) (f : ℕ → A) (i : ℕ) (a : A)
      → i < n
      → w a < w (f i)
      → total w n (replace f i a) < total w n f
  total_less w n f i a h l = omega (arith, total-replace w n f i a h)
