-- ===== src/Word/Step.antt =====
-- The native `bit_and` and `bit_or`: their lowest binary digit, and the digits above it.
use Prim.Native.Nat.{
  digits, bitwise, differ, bit_xor, bit_and-bitwise, bit_or-bitwise, bit_xor-bitwise,
}
use robot_ipc.Common.{
  ℕ, zero, suc, ◌+◌, ◌*◌, ◌/◌, ◌%◌, ◌≤◌, ◌<◌, min, max, bit_and, bit_or, ◌≡◌, refl, arith,
}

module _ (rest : ℕ → ℕ) (op : ℕ → ℕ → ℕ) where
  -- Fuel beyond the first operand changes nothing. `bound` counts down in the proof only.
  enough :
      (bound fuel x y : ℕ) → fuel < bound → x ≤ fuel → digits rest op fuel x y ≡ bitwise rest op x y
  enough zero fuel x y small fits = absurd (omega arith)
  enough (suc bound) zero zero y small fits = refl
  enough (suc bound) zero (suc x) y small fits = absurd (omega arith)
  enough (suc bound) (suc fuel) zero y small fits = refl
  enough (suc bound) (suc fuel) (suc x) y small fits =
      let wide = enough bound fuel (suc x / 2) (y / 2) (omega arith) (omega arith) in
      let exact = enough bound x (suc x / 2) (y / 2) (omega arith) (omega arith) in
      omega (arith, wide, exact)

  unroll :
      (x y : ℕ)
      → bitwise rest op (suc x) y ≡ bitwise rest op (suc x / 2) (y / 2) * 2 + op (suc x % 2) (y % 2)
  unroll x y =
      let exact = enough (suc x) x (suc x / 2) (y / 2) (omega arith) (omega arith) in
      omega (arith, exact)

or_digit : (x y : ℕ) → bit_or x y ≡ bit_or (x / 2) (y / 2) * 2 + max (x % 2) (y % 2)
or_digit zero y = omega (arith, bit_or-bitwise 0 y, bit_or-bitwise 0 (y / 2))
or_digit (suc x) y =
    omega
      (arith, unroll (λ d. d) max x y, bit_or-bitwise (suc x) y, bit_or-bitwise (suc x / 2) (y / 2))

and_digit : (x y : ℕ) → bit_and x y ≡ bit_and (x / 2) (y / 2) * 2 + min (x % 2) (y % 2)
and_digit zero y = omega (arith, bit_and-bitwise 0 y, bit_and-bitwise 0 (y / 2))
and_digit (suc x) y =
    omega (
      arith,
      unroll (λ d. 0) min x y,
      bit_and-bitwise (suc x) y,
      bit_and-bitwise (suc x / 2) (y / 2),
    )

differ_digits : (a b : ℕ) → a < 2 → b < 2 → differ a b ≡ (a + b) % 2
differ_digits zero b ha hb = omega arith
differ_digits (suc zero) zero ha hb = omega arith
differ_digits (suc zero) (suc zero) ha hb = omega arith
differ_digits (suc zero) (suc (suc b)) ha hb = absurd (omega (arith, hb))
differ_digits (suc (suc a)) b ha hb = absurd (omega (arith, ha))

-- The sum of the lowest digits without its carry, and the digits above.
pub bit_xor_digit : (x y : ℕ) → bit_xor x y ≡ bit_xor (x / 2) (y / 2) * 2 + (x % 2 + y % 2) % 2
bit_xor_digit zero y = omega (arith, bit_xor-bitwise 0 y, bit_xor-bitwise 0 (y / 2))
bit_xor_digit (suc x) y = omega (
  arith,
  unroll (λ d. d) differ x y,
  differ_digits (suc x % 2) (y % 2) (omega arith) (omega arith),
  bit_xor-bitwise (suc x) y,
  bit_xor-bitwise (suc x / 2) (y / 2),
)

pub bit_and_low : (a b : ℕ) → bit_and a b % 2 ≡ min (a % 2) (b % 2)
bit_and_low a b = omega (arith, and_digit a b)

pub bit_or_low : (a b : ℕ) → bit_or a b % 2 ≡ max (a % 2) (b % 2)
bit_or_low a b = omega (arith, or_digit a b)

pub bit_and_half : (a b : ℕ) → bit_and a b / 2 ≡ bit_and (a / 2) (b / 2)
bit_and_half a b = omega (arith, and_digit a b)

pub bit_or_half : (a b : ℕ) → bit_or a b / 2 ≡ bit_or (a / 2) (b / 2)
bit_or_half a b = omega (arith, or_digit a b)

-- A clear operand clears the result.
nothing_left : (size x : ℕ) → x < size → bit_and x 0 ≡ 0
nothing_left zero x small = absurd (omega arith)
nothing_left (suc size) zero small = bit_and-bitwise 0 0
nothing_left (suc size) (suc x) small =
    omega (arith, and_digit (suc x) 0, nothing_left size (suc x / 2) (omega arith))

pub bit_and-zero : (a : ℕ) → bit_and a 0 ≡ 0
bit_and-zero a = nothing_left (suc a) a (omega arith)

alone_left : (size x : ℕ) → x < size → bit_or x 0 ≡ x
alone_left zero x small = absurd (omega arith)
alone_left (suc size) zero small = bit_or-bitwise 0 0
alone_left (suc size) (suc x) small =
    omega (arith, or_digit (suc x) 0, alone_left size (suc x / 2) (omega arith))

pub bit_or-zero : (a : ℕ) → bit_or a 0 ≡ a
bit_or-zero a = alone_left (suc a) a (omega arith)
