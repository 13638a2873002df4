-- ===== src/HostVariable/Lock/Exclusion.antt =====
-- What the lock promises to who holds a buffer.
use robot_ipc.Common.{
  ℕ, ◌+◌, ◌<◌, ◌≤◌, ◌≡◌, ◌≢◌, ◌⊎◌, arith, le-total, add-le-total_of_lt, dec_lt, ℕ_discrete,
}
use robot_ipc.Word.{nibble, nibble-lt}
use robot_ipc.HostVariable.Lock.{Hold, shared, exclusive, weight, IsLocked}

module _ {n w : ℕ} {holds : ℕ → Hold} (locked : IsLocked n w holds) where
  open locked use {open_target, counted, ranges}

  pair-le :
      (b i j : ℕ) → b < 4 → i < n → j < n → i ≢ j → weight b (holds i) + weight b (holds j) ≤ 15
  pair-le b i j hb hi hj ne = elim (dec_lt i j) [
    | yes p ↦
        omega (arith, add-le-total_of_lt (weight b) n holds i j p hj, counted b hb, nibble-lt w b)
    | no p ↦ omega (
      arith,
      add-le-total_of_lt (weight b) n holds j i (omega arith) hi,
      counted b hb,
      nibble-lt w b,
    )
  ]

  -- A buffer that a process holds for writing is held by no other.
  pub exclusive_alone :
      (b i j : ℕ)
      → i < n
      → j < n
      → holds i ≡ exclusive b
      → (holds j ≡ exclusive b) ⊎ (holds j ≡ shared b)
      → i ≡ j
  exclusive_alone b i j hi hj e d = elim (ℕ_discrete i j) [
    | yes same ↦ same
    | no ne ↦ ground (arith, ranges i hi, pair-le b i j)
  ]

  -- A buffer that a process holds for writing is not the target.
  pub exclusive-ne-target : (b i : ℕ) → i < n → holds i ≡ exclusive b → nibble w 15 ≢ b
  exclusive-ne-target b i hi e t =
      ground (arith, ranges i hi, counted b, le-total (weight b) n holds i hi)

  pub shared-pos : (b i : ℕ) → i < n → holds i ≡ shared b → 0 < nibble w b
  shared-pos b i hi e = ground (arith, ranges i hi, counted b, le-total (weight b) n holds i hi)

  pub exclusive-full : (b i : ℕ) → i < n → holds i ≡ exclusive b → nibble w b ≡ 15
  exclusive-full b i hi e =
      ground (arith, ranges i hi, counted b, le-total (weight b) n holds i hi, nibble-lt w b)
