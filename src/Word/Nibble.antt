-- ===== src/Word/Nibble.antt =====
-- The 4-bit fields of a word, and what `&` and `|` do to each of them.
use robot_ipc.Common.{
  ℕ, zero, suc, ◌+◌, ◌*◌, ◌/◌, ◌%◌, ◌^◌, ◌<◌, min, max, bit_and, bit_or, ◌≡◌, refl, arith,
}
use native.Mathlib.Nat.{pow-suc}
use robot_ipc.Word.Step.{bit_and_low, bit_or_low, bit_and_half, bit_or_half}

-- Field `i` of `w`, counted from the low end.
unfoldable pub nibble : ℕ → ℕ → ℕ
nibble w zero = w % 16
nibble w (suc i) = nibble (w / 16) i

pub nibble-zero : (w : ℕ) → nibble w 0 ≡ w % 16
unfolding nibble
nibble-zero w = refl

pub nibble-suc : (w i : ℕ) → nibble w (suc i) ≡ nibble (w / 16) i
unfolding nibble
nibble-suc w i = refl

pub nibble-lt : (w i : ℕ) → nibble w i < 16
unfolding nibble
nibble-lt w zero = omega arith
nibble-lt w (suc i) = nibble-lt (w / 16) i

quarter : (x : ℕ) → x / 2 / 2 / 2 / 2 ≡ x / 16
quarter x = omega arith

pub bit_and_sixteenth : (a b : ℕ) → bit_and a b / 16 ≡ bit_and (a / 16) (b / 16)
bit_and_sixteenth a b = simp (← quarter, bit_and_half)

bit_or_sixteenth : (a b : ℕ) → bit_or a b / 16 ≡ bit_or (a / 16) (b / 16)
bit_or_sixteenth a b = simp (← quarter, bit_or_half)

-- The lowest field, digit by digit.
digits_of : (x : ℕ) → x % 16 ≡ x % 2 + x / 2 % 2 * 2 + x / 2 / 2 % 2 * 4 + x / 2 / 2 / 2 % 2 * 8
digits_of x = omega arith

bit_and_digits :
    (a b : ℕ)
    → bit_and a b % 16
      ≡ min (a % 2) (b % 2)
        + min (a / 2 % 2) (b / 2 % 2) * 2
        + min (a / 2 / 2 % 2) (b / 2 / 2 % 2) * 4
        + min (a / 2 / 2 / 2 % 2) (b / 2 / 2 / 2 % 2) * 8
bit_and_digits a b = rw digits_of (simp (bit_and_half, bit_and_low))

bit_or_digits :
    (a b : ℕ)
    → bit_or a b % 16
      ≡ max (a % 2) (b % 2)
        + max (a / 2 % 2) (b / 2 % 2) * 2
        + max (a / 2 / 2 % 2) (b / 2 / 2 % 2) * 4
        + max (a / 2 / 2 / 2 % 2) (b / 2 / 2 / 2 % 2) * 8
bit_or_digits a b = rw digits_of (simp (bit_or_half, bit_or_low))

-- `&` with a clear field, with a full field, and with the lowest bit of a field.
pub nibble-bit_and_clear : (a b i : ℕ) → nibble b i ≡ 0 → nibble (bit_and a b) i ≡ 0
unfolding nibble
nibble-bit_and_clear a b zero h = omega (arith, bit_and_digits a b)
nibble-bit_and_clear a b (suc i) h =
    rw bit_and_sixteenth (nibble-bit_and_clear (a / 16) (b / 16) i h)

pub nibble-bit_and_full : (a b i : ℕ) → nibble b i ≡ 15 → nibble (bit_and a b) i ≡ nibble a i
unfolding nibble
nibble-bit_and_full a b zero h = omega (arith, bit_and_digits a b)
nibble-bit_and_full a b (suc i) h = rw bit_and_sixteenth (nibble-bit_and_full (a / 16) (b / 16) i h)

pub nibble-bit_and_one : (a b i : ℕ) → nibble b i ≡ 1 → nibble (bit_and a b) i ≡ nibble a i % 2
unfolding nibble
nibble-bit_and_one a b zero h = omega (arith, bit_and_digits a b)
nibble-bit_and_one a b (suc i) h = rw bit_and_sixteenth (nibble-bit_and_one (a / 16) (b / 16) i h)

-- `|` with a clear field on either side, with a full field, and on the lowest bit of a field.
pub nibble-bit_or_clear : (a b i : ℕ) → nibble b i ≡ 0 → nibble (bit_or a b) i ≡ nibble a i
unfolding nibble
nibble-bit_or_clear a b zero h = omega (arith, bit_or_digits a b)
nibble-bit_or_clear a b (suc i) h = rw bit_or_sixteenth (nibble-bit_or_clear (a / 16) (b / 16) i h)

pub nibble-clear_bit_or : (a b i : ℕ) → nibble a i ≡ 0 → nibble (bit_or a b) i ≡ nibble b i
unfolding nibble
nibble-clear_bit_or a b zero h = omega (arith, bit_or_digits a b)
nibble-clear_bit_or a b (suc i) h = rw bit_or_sixteenth (nibble-clear_bit_or (a / 16) (b / 16) i h)

pub nibble-bit_or_full : (a b i : ℕ) → nibble b i ≡ 15 → nibble (bit_or a b) i ≡ 15
unfolding nibble
nibble-bit_or_full a b zero h = omega (arith, bit_or_digits a b)
nibble-bit_or_full a b (suc i) h = rw bit_or_sixteenth (nibble-bit_or_full (a / 16) (b / 16) i h)

pub nibble-bit_or_low :
    (a b i : ℕ) → nibble (bit_or a b) i % 2 ≡ max (nibble a i % 2) (nibble b i % 2)
unfolding nibble
nibble-bit_or_low a b zero = omega (arith, bit_or_digits a b)
nibble-bit_or_low a b (suc i) = rw bit_or_sixteenth (nibble-bit_or_low (a / 16) (b / 16) i)

-- A shift to the right by one, two or three brings the higher bits of a field to its lowest bit.
pub nibble-half : (w i : ℕ) → nibble (w / 2) i % 2 ≡ nibble w i / 2 % 2
unfolding nibble
nibble-half w zero = omega arith
nibble-half w (suc i) =
    let e : w / 2 / 16 ≡ w / 16 / 2 = omega arith in rw e (nibble-half (w / 16) i)

pub nibble-fourth : (w i : ℕ) → nibble (w / 4) i % 2 ≡ nibble w i / 4 % 2
unfolding nibble
nibble-fourth w zero = omega arith
nibble-fourth w (suc i) =
    let e : w / 4 / 16 ≡ w / 16 / 4 = omega arith in rw e (nibble-fourth (w / 16) i)

pub nibble-eighth : (w i : ℕ) → nibble (w / 8) i % 2 ≡ nibble w i / 8 % 2
unfolding nibble
nibble-eighth w zero = omega arith
nibble-eighth w (suc i) =
    let e : w / 8 / 16 ≡ w / 16 / 8 = omega arith in rw e (nibble-eighth (w / 16) i)

-- A word of `n` fields stays one.
pub bit_or-lt : (n a b : ℕ) → a < 16 ^ n → b < 16 ^ n → bit_or a b < 16 ^ n
bit_or-lt zero zero zero p q = omega arith
bit_or-lt zero a b p q = absurd (omega arith)
bit_or-lt (suc n) a b p q = omega (
  arith,
  pow-suc 16 n,
  bit_or_sixteenth a b,
  bit_or-lt n (a / 16) (b / 16) (omega (arith, pow-suc 16 n)) (omega (arith, pow-suc 16 n)),
)

pub bit_and-lt : (n a b : ℕ) → a < 16 ^ n → b < 16 ^ n → bit_and a b < 16 ^ n
bit_and-lt zero zero zero p q = omega arith
bit_and-lt zero a b p q = absurd (omega arith)
bit_and-lt (suc n) a b p q = omega (
  arith,
  pow-suc 16 n,
  bit_and_sixteenth a b,
  bit_and-lt n (a / 16) (b / 16) (omega (arith, pow-suc 16 n)) (omega (arith, pow-suc 16 n)),
)
