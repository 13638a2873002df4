-- ===== src/Word/Scan.antt =====
-- `__builtin_ctzll`, and where it stops on a word whose fields are all 0 or 1.
use robot_ipc.Common.{
  ℕ, zero, suc, ◌+◌, ◌*◌, ◌/◌, ◌%◌, ◌^◌, ◌<◌, ◌≡◌, ◌≢◌, ◌∙◌, ℕ_discrete, arith, ◌==◌, if◌then◌else◌,
}
use native.Mathlib.Nat.{pow-suc}
use robot_ipc.Word.Nibble.{nibble, nibble-zero, nibble-suc}

-- The zeros below the lowest one of a word of `n` bits; `n` if there is no one.
pub ctz_bits : ℕ → ℕ → ℕ
ctz_bits zero w = 0
ctz_bits (suc n) w = let rest = ctz_bits n (w / 2) in if w % 2 == 1 then 0 else suc rest

-- `__builtin_ctzll(w)`; at 0, where C leaves the result open, this is 64.
unfoldable pub ctz : ℕ → ℕ
unfolding ctz_bits
ctz w = ctz_bits 64 w

-- `i` is the first field of `w` that is not clear.
pub record IsFirst (w i : ℕ) : Type 0 where
  pub found : nibble w i ≡ 1
  pub before : (j : ℕ) → j < i → nibble w j ≡ 0

ctz_bits-one : (n w : ℕ) → w % 16 ≡ 1 → ctz_bits (suc n) w ≡ 0
unfolding ctz_bits
ctz_bits-one n w h = ground arith

ctz_bits-skip :
    (n w : ℕ) → w % 16 ≡ 0 → ctz_bits (suc (suc (suc (suc n)))) w ≡ 4 + ctz_bits n (w / 16)
unfolding ctz_bits
ctz_bits-skip n w h = let e : w / 2 / 2 / 2 / 2 ≡ w / 16 = omega arith in rw e (ground arith)

-- Past a clear lowest field the search goes on in the rest of the word.
IsFirst-suc : {w i : ℕ} → w % 16 ≡ 0 → IsFirst (w / 16) i → IsFirst w (suc i)
IsFirst-suc {w} {i} h first = record {
  found = nibble-suc w i ∙ first.found;
  before = λ j lt. IsFirst-before j lt;
}
  where
    IsFirst-before : (j : ℕ) → j < suc i → nibble w j ≡ 0
    IsFirst-before zero lt = nibble-zero w ∙ h
    IsFirst-before (suc j) lt = nibble-suc w j ∙ first.before j (omega arith)

ctz_bits-IsFirst :
    (n w : ℕ)
    → w < 16 ^ n
    → w ≢ 0
    → ((i : ℕ) → i < n → nibble w i < 2)
    → (i : ℕ) × (i < n) × (ctz_bits (n * 4) w ≡ i * 4) × IsFirst w i
ctz_bits-IsFirst zero w h ne small = absurd (omega arith)
ctz_bits-IsFirst (suc n) w h ne small = elim (ℕ_discrete (w % 16) 0) [
  | yes clear ↦
      let (i, below, stop, first) =
        ctz_bits-IsFirst n (w / 16) (omega (arith, pow-suc 16 n)) (omega arith)
          (λ j lt. rw (nibble-suc w j) at (small (suc j) (omega arith))) in
      let e : suc n * 4 ≡ suc (suc (suc (suc (n * 4)))) = omega arith in
      (
        suc i,
        omega arith,
        rw e (omega (arith, ctz_bits-skip (n * 4) w clear)),
        IsFirst-suc clear first,
      )
  | no set ↦
      let e : suc n * 4 ≡ suc (suc (suc (suc (n * 4)))) = omega arith in
      let one : w % 16 ≡ 1 = omega (arith, small 0 (omega arith), nibble-zero w) in
      (
        0,
        omega arith,
        rw e (omega (arith, ctz_bits-one (suc (suc (suc (n * 4)))) w one)),
        record { found = nibble-zero w ∙ one; before = λ j lt. absurd (omega arith) },
      )
]

-- On a word that is not 0, and whose fields are 0 or 1, `ctz` is four times the first set field.
pub ctz-IsFirst :
    (w : ℕ)
    → w < 2 ^ 64
    → w ≢ 0
    → ((i : ℕ) → i < 16 → nibble w i < 2)
    → (i : ℕ) × (i < 16) × (ctz w ≡ i * 4) × IsFirst w i
unfolding ctz
ctz-IsFirst w h ne small = ctz_bits-IsFirst 16 w h ne small
