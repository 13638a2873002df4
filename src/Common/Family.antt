-- ===== src/Common/Family.antt =====
-- Families indexed by a number, one member for each process, buffer or byte: storing one member,
-- and the sum of a measure over the members below a bound.
use Prim.Native.Nat.{ℕ, zero, suc, ◌+◌, ◌≤◌, ◌<◌}
use mathlib.Core.Path.{◌≡◌, refl}
use mathlib.Core.Logic.{◌≢◌}
use native.Mathlib.Omega.{arith}
use native.Mathlib.Decide.{ℕ_discrete}
use robot_ipc.Common.Tests.{◌==◌, ltb, if◌then◌else◌}

-- `f` with `a` for its member `i`.
abbrev pub update {ℓ} : {A : Type ℓ} → (ℕ → A) → ℕ → A → ℕ → A
update f i a j = if i == j then a else f j

module _ {ℓ} {A : Type ℓ} (f : ℕ → A) where
  pub update_self : (i : ℕ) (a : A) (j : ℕ) → i ≡ j → update f i a j ≡ a
  update_self i a j e = ground arith

  pub update_ne : (i : ℕ) (a : A) (j : ℕ) → ¬ (i ≡ j) → update f i a j ≡ f j
  update_ne i a j ne = ground arith

module _ {ℓ} {A : Type ℓ} (measure : A → ℕ) where
  pub total : ℕ → (ℕ → A) → ℕ
  total zero f = 0
  total (suc k) f = measure (f k) + total k f

  -- Both sides count the member that is replaced, if it lies below the bound.
  exchange :
      (k : ℕ) (f : ℕ → A) (i : ℕ) (a : A)
      → total k (update f i a) + (if ltb i k then measure (f i) else 0)
        ≡ total k f + (if ltb i k then measure a else 0)
  unfolding total
  exchange zero f i a = ground arith
  exchange (suc k) f i a = ground (arith, exchange k f i a)

  pub total-update :
      (k : ℕ) (f : ℕ → A) (i : ℕ) (a : A)
      → i < k
      → total k (update f i a) + measure (f i) ≡ total k f + measure a
  total-update k f i a below = ground (arith, exchange k f i a)

  -- The sum is at least what any of its members, or any two of them, count.
  pub le-total : (k : ℕ) (f : ℕ → A) (i : ℕ) → i < k → measure (f i) ≤ total k f
  unfolding total
  le-total zero f i below = absurd (omega arith)
  le-total (suc k) f i below = ground (arith, le-total k f i)

  pub add-le-total_of_lt :
      (k : ℕ) (f : ℕ → A) (i j : ℕ) → i < j → j < k → measure (f i) + measure (f j) ≤ total k f
  unfolding total
  add-le-total_of_lt zero f i j first below = absurd (omega arith)
  add-le-total_of_lt (suc k) f i j first below =
      ground (arith, le-total k f i, add-le-total_of_lt k f i j first)

  -- Where no member counts, the sum is 0.
  pub total-const_zero : (k : ℕ) (f : ℕ → A) → ((i : ℕ) → measure (f i) ≡ 0) → total k f ≡ 0
  unfolding total
  total-const_zero zero f none = refl
  total-const_zero (suc k) f none = omega (arith, none k, total-const_zero k f none)

  -- Where each member counts at most 1, the sum is at most their number, and less by one where a
  -- member counts 0.
  pub total-le : (k : ℕ) (f : ℕ → A) → ((i : ℕ) → i < k → measure (f i) ≤ 1) → total k f ≤ k
  unfolding total
  total-le zero f small = omega arith
  total-le (suc k) f small =
      omega (arith, small k (omega arith), total-le k f (λ i below. small i (omega arith)))

  pub total-lt :
      (k : ℕ) (f : ℕ → A)
      → ((i : ℕ) → i < k → measure (f i) ≤ 1)
      → (i : ℕ) → i < k
      → measure (f i) ≡ 0
      → total k f < k
  unfolding total
  total-lt zero f small i below none = absurd (omega arith)
  total-lt (suc k) f small i below none = elim (ℕ_discrete i k) [
    | yes last ↦ omega (arith, rw last at none, total-le k f (λ j below. small j (omega arith)))
    | no other ↦ omega (
      arith,
      small k (omega arith),
      total-lt k f (λ j below. small j (omega arith)) i (omega arith) none,
    )
  ]

  -- A sum that is not 0 has a member that counts.
  pub total-ne-zero : (k : ℕ) (f : ℕ → A) → total k f ≢ 0 → (i : ℕ) × (i < k) × (measure (f i) ≢ 0)
  unfolding total
  total-ne-zero zero f some_count = absurd (some_count refl)
  total-ne-zero (suc k) f some_count = elim (ℕ_discrete (measure (f k)) 0) [
    | no counts ↦ (k, omega arith, counts)
    | yes none ↦
        let (i, below, counts) = total-ne-zero k f (λ e. some_count (omega (arith, e, none))) in
        (i, omega arith, counts)
  ]
