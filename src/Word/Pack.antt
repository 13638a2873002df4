-- ===== src/Word/Pack.antt =====
-- Two numbers side by side in one word: `|` of a shifted number and of one below the shift, and `&`
-- with a mask of the low digits.
use robot_ipc.Common.{ℕ, zero, suc, ◌+◌, ◌-◌, ◌*◌, ◌/◌, ◌^◌, ◌<◌, bit_and, bit_or, ◌≡◌, ◌≤◌, arith}
use native.Mathlib.Nat.{pow-suc, one-le-pow}
use robot_ipc.Word.Step.{
  bit_and_low, bit_or_low, bit_and_half, bit_or_half, bit_and-zero, bit_or-zero,
}

double : (a p : ℕ) → a * (p * 2) ≡ a * p * 2
double a p = grind arith

-- In binary, the digits of the two do not meet.
pub bit_or-pack : (k a b : ℕ) → b < 2 ^ k → bit_or (a * 2 ^ k) b ≡ a * 2 ^ k + b
bit_or-pack zero a b h =
    let e : b ≡ 0 = omega arith in rw e (omega (arith, bit_or-zero (a * 2 ^ 0)))
bit_or-pack (suc k) a b h =
    let e : a * 2 ^ suc k ≡ a * 2 ^ k * 2 = rw (pow-suc 2 k) (double a (2 ^ k)) in
    let f : a * 2 ^ k * 2 / 2 ≡ a * 2 ^ k = omega arith in
    let half : bit_or (a * 2 ^ k * 2 / 2) (b / 2) ≡ a * 2 ^ k + b / 2 =
      rw f (bit_or-pack k a (b / 2) (omega (arith, pow-suc 2 k))) in
    rw e (omega (arith, half, bit_or_low (a * 2 ^ k * 2) b, bit_or_half (a * 2 ^ k * 2) b))

-- The mask of the `k` low digits keeps a number that has no others.
pub bit_and-mask : (k b : ℕ) → b < 2 ^ k → bit_and b (2 ^ k - 1) ≡ b
bit_and-mask zero b h = omega (arith, bit_and-zero b)
bit_and-mask (suc k) b h =
    let one : 1 ≤ 2 ^ k = one-le-pow k 2 (omega arith) in
    let half : (2 ^ suc k - 1) / 2 ≡ 2 ^ k - 1 = omega (arith, pow-suc 2 k) in
    let rest : bit_and (b / 2) ((2 ^ suc k - 1) / 2) ≡ b / 2 =
      rw half (bit_and-mask k (b / 2) (omega (arith, pow-suc 2 k))) in
    omega (arith, rest, pow-suc 2 k, bit_and_low b (2 ^ suc k - 1), bit_and_half b (2 ^ suc k - 1))
