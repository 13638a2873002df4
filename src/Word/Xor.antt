-- ===== src/Word/Xor.antt =====
-- `^` on words: the laws by which a checksum is checked.
use Prim.Native.Nat.{bit_xor, bit_xor-bitwise}
use robot_ipc.Common.{ℕ, zero, suc, ◌+◌, ◌/◌, ◌%◌, ◌<◌, ◌≡◌, arith, refl, ap, ap₂, ◌^◌}
use robot_ipc.Word.Step.{bit_xor_digit}

pub xor-zero_left : (y : ℕ) → bit_xor 0 y ≡ y
xor-zero_left y = bit_xor-bitwise 0 y

-- `bound` is above the operand, and falls with its digits.
self_below : (bound x : ℕ) → x < bound → bit_xor x x ≡ 0
self_below zero x small = absurd (omega arith)
self_below (suc bound) zero small = bit_xor-bitwise 0 0
self_below (suc bound) (suc x) small =
    omega (arith, bit_xor_digit (suc x) (suc x), self_below bound (suc x / 2) (omega arith))

pub xor_self : (x : ℕ) → bit_xor x x ≡ 0
xor_self x = self_below (suc x) x (omega arith)

zero_below : (bound x : ℕ) → x < bound → bit_xor x 0 ≡ x
zero_below zero x small = absurd (omega arith)
zero_below (suc bound) zero small = bit_xor-bitwise 0 0
zero_below (suc bound) (suc x) small =
    omega (arith, bit_xor_digit (suc x) 0, zero_below bound (suc x / 2) (omega arith))

pub xor-zero : (x : ℕ) → bit_xor x 0 ≡ x
xor-zero x = zero_below (suc x) x (omega arith)

xor_half : (x y : ℕ) → bit_xor x y / 2 ≡ bit_xor (x / 2) (y / 2)
xor_half x y = omega (arith, bit_xor_digit x y)

xor_low : (x y : ℕ) → bit_xor x y % 2 ≡ (x % 2 + y % 2) % 2
xor_low x y = omega (arith, bit_xor_digit x y)

assoc_below : (bound x y z : ℕ) → x < bound → bit_xor (bit_xor x y) z ≡ bit_xor x (bit_xor y z)
assoc_below zero x y z small = absurd (omega arith)
assoc_below (suc bound) zero y z small = rw (xor-zero_left y, xor-zero_left (bit_xor y z)) refl
assoc_below (suc bound) (suc x) y z small = omega (
  arith,
  bit_xor_digit (bit_xor (suc x) y) z,
  bit_xor_digit (suc x) (bit_xor y z),
  ap (λ (t : ℕ). bit_xor t (z / 2)) (xor_half (suc x) y),
  ap (λ (t : ℕ). bit_xor (suc x / 2) t) (xor_half y z),
  xor_low (suc x) y,
  xor_low y z,
  assoc_below bound (suc x / 2) (y / 2) (z / 2) (omega arith),
)

zero_of : (x : ℕ) → x < 2 ^ 0 → x ≡ 0
zero_of x h = omega (arith, h)

pub xor_assoc : (x y z : ℕ) → bit_xor (bit_xor x y) z ≡ bit_xor x (bit_xor y z)
xor_assoc x y z = assoc_below (suc x) x y z (omega arith)

-- A width that holds both words holds the result.
pub xor-lt : (k x y : ℕ) → x < 2 ^ k → y < 2 ^ k → bit_xor x y < 2 ^ k
xor-lt zero x y hx hy = omega (arith, ap₂ bit_xor (zero_of x hx) (zero_of y hy), xor_self 0)
xor-lt (suc k) x y hx hy =
    omega
      (arith, bit_xor_digit x y, xor-lt k (x / 2) (y / 2) (omega (arith, hx)) (omega (arith, hy)))
