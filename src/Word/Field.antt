-- ===== src/Word/Field.antt =====
-- The C operators on `uint64_t` that the flags are handled with, field by field: `<<`, `>>`, `~`
-- and the masks that are built from them.
use robot_ipc.Common.{
  ℕ, zero, suc, ◌-◌, ◌*◌, ◌/◌, ◌%◌, ◌^◌, ◌≤◌, ◌<◌, bit_and, bit_or, ◌≡◌, ◌≢◌, ap, refl, ◌∙◌, arith,
}
use native.Mathlib.Nat.{pow-suc, pow-le-pow_right, div-div-eq-div-mul}
use robot_ipc.Word.Step.{bit_and-zero}
use robot_ipc.Word.Nibble.{
  nibble, nibble-zero, nibble-suc, nibble-bit_and_clear, nibble-bit_and_full, nibble-bit_or_clear,
  nibble-clear_bit_or, bit_and_sixteenth, bit_or-lt, bit_and-lt,
}

-- The size of a `uint64_t`: a value is kept below it.
abbrev pub u64_mod : ℕ
u64_mod = 2 ^ 64

abbrev pub u64 : ℕ → ℕ
u64 n = n % u64_mod

-- Looser than `*` and `+`, as in C.
infixl 60 ◌<<<◌ ◌>>>◌
-- `x << k` on `uint64_t`.
unfoldable pub ◌<<<◌ : ℕ → ℕ → ℕ
x <<< k = u64 (x * 2 ^ k)

-- `x >> k` on `uint64_t`.
unfoldable pub ◌>>>◌ : ℕ → ℕ → ℕ
x >>> k = x / 2 ^ k

-- `~x` on `uint64_t`.
unfoldable pub bit_not : ℕ → ℕ
bit_not x = u64_mod - 1 - x

pow_field : (t : ℕ) → 2 ^ (suc t * 4) ≡ 16 * 2 ^ (t * 4)
pow_field t =
    let e : suc t * 4 ≡ suc (suc (suc (suc (t * 4)))) = omega arith in
    rw e (
      omega (
        arith,
        pow-suc 2 (t * 4),
        pow-suc 2 (suc (t * 4)),
        pow-suc 2 (suc (suc (t * 4))),
        pow-suc 2 (suc (suc (suc (t * 4)))),
      ))

-- Shifting down by `t` fields brings field `t` to the low end.
nibble-shift : (w t : ℕ) → w / 2 ^ (t * 4) % 16 ≡ nibble w t
nibble-shift w zero = rw nibble-zero (omega arith)
nibble-shift w (suc t) =
    rw (nibble-suc, pow_field t, ← div-div-eq-div-mul w 16 (2 ^ (t * 4))) (nibble-shift (w / 16) t)

bit_and_fifteen : (x : ℕ) → bit_and x 15 ≡ x % 16
bit_and_fifteen x = omega (
  arith,
  bit_and_sixteenth x 15,
  bit_and-zero (x / 16),
  nibble-bit_and_full x 15 0 (nibble-zero 15),
  nibble-zero (bit_and x 15),
  nibble-zero x,
)

-- `(w >> (t * 4)) & 0xF` is field `t`.
pub field_lem : (w t : ℕ) → bit_and (w >>> t * 4) 0xF ≡ nibble w t
unfolding ◌>>>◌
field_lem w t = bit_and_fifteen (w / 2 ^ (t * 4)) ∙ nibble-shift w t

-- `w >> 60` is the top field.
pub top_field : (w : ℕ) → w < u64_mod → w >>> 60 ≡ nibble w 15
unfolding ◌>>>◌
top_field w h = omega (arith, nibble-shift w 15)

pub nibble-zero_word : (i : ℕ) → nibble 0 i ≡ 0
nibble-zero_word zero = nibble-zero 0
nibble-zero_word (suc i) = nibble-suc 0 i ∙ nibble-zero_word i

nibble-shifted_self : (v t : ℕ) → v < 16 → nibble (v * 2 ^ (t * 4)) t ≡ v
nibble-shifted_self v zero h = rw nibble-zero (omega arith)
nibble-shifted_self v (suc t) h =
    let e : v * 2 ^ (suc t * 4) / 16 ≡ v * 2 ^ (t * 4) =
      omega (arith, ap (λ (p : ℕ). v * p) (pow_field t)) in
    rw (nibble-suc, e) (nibble-shifted_self v t h)

nibble-shifted_ne : (v t i : ℕ) → v < 16 → t ≢ i → nibble (v * 2 ^ (t * 4)) i ≡ 0
nibble-shifted_ne v zero zero h ne = absurd (ne refl)
nibble-shifted_ne v zero (suc i) h ne =
    let e : v * 2 ^ (0 * 4) / 16 ≡ 0 = omega arith in rw (nibble-suc, e) (nibble-zero_word i)
nibble-shifted_ne v (suc t) zero h ne =
    rw nibble-zero (omega (arith, ap (λ (p : ℕ). v * p) (pow_field t)))
nibble-shifted_ne v (suc t) (suc i) h ne =
    let e : v * 2 ^ (suc t * 4) / 16 ≡ v * 2 ^ (t * 4) =
      omega (arith, ap (λ (p : ℕ). v * p) (pow_field t)) in
    rw (nibble-suc, e) (nibble-shifted_ne v t i h (λ q. ne (ap suc q)))

mul-le_fifteen : (v p q : ℕ) → v < 16 → p ≤ q → v * p ≤ 15 * q
mul-le_fifteen v p q h k = grind arith

shift-le : (t : ℕ) → t < 16 → 2 ^ (t * 4) ≤ 2 ^ 60
shift-le t h =
    let top : t * 4 ≤ 60 = omega arith in
    pow-le-pow_right {n = 2} (omega arith) {i = t * 4} {j = 60} top

-- A value of one field, moved to field `t`, is cut off nowhere.
shifted_fits : (v t : ℕ) → v < 16 → t < 16 → v <<< t * 4 ≡ v * 2 ^ (t * 4)
unfolding ◌<<<◌
shifted_fits v t hv ht = omega (arith, mul-le_fifteen v (2 ^ (t * 4)) (2 ^ 60) hv (shift-le t ht))

pub nibble-shl_self : (v t : ℕ) → v < 16 → t < 16 → nibble (v <<< t * 4) t ≡ v
nibble-shl_self v t hv ht = rw (shifted_fits v t hv ht) (nibble-shifted_self v t hv)

pub nibble-shl_ne : (v t i : ℕ) → v < 16 → t < 16 → t ≢ i → nibble (v <<< t * 4) i ≡ 0
nibble-shl_ne v t i hv ht ne = rw (shifted_fits v t hv ht) (nibble-shifted_ne v t i hv ne)

pub shl-lt : (v k : ℕ) → v <<< k < u64_mod
unfolding ◌<<<◌
shl-lt v k = omega arith

-- The complement of a word of `n` fields, field by field.
nibble-complement : (n w i : ℕ) → w < 16 ^ n → i < n → nibble (16 ^ n - 1 - w) i ≡ 15 - nibble w i
nibble-complement zero w i h lt = absurd (omega arith)
nibble-complement (suc n) w zero h lt =
    omega (arith, nibble-zero w, nibble-zero (16 ^ suc n - 1 - w), pow-suc 16 n)
nibble-complement (suc n) w (suc i) h lt =
    let e : (16 ^ suc n - 1 - w) / 16 ≡ 16 ^ n - 1 - w / 16 = omega (arith, pow-suc 16 n) in
    rw (nibble-suc, e, nibble-suc)
      (nibble-complement n (w / 16) i (omega (arith, pow-suc 16 n)) (omega arith))

pub nibble-bit_not : (w i : ℕ) → w < u64_mod → i < 16 → nibble (bit_not w) i ≡ 15 - nibble w i
unfolding bit_not
nibble-bit_not w i h lt = nibble-complement 16 w i h lt

pub bit_not-lt : (w : ℕ) → bit_not w < u64_mod
unfolding bit_not
bit_not-lt w = omega arith

pub bit_or-lt_u64 : (a b : ℕ) → a < u64_mod → b < u64_mod → bit_or a b < u64_mod
bit_or-lt_u64 a b = bit_or-lt 16 a b

pub bit_and-lt_u64 : (a b : ℕ) → a < u64_mod → b < u64_mod → bit_and a b < u64_mod
bit_and-lt_u64 a b = bit_and-lt 16 a b

-- `w & ~(0xF << (t * 4))` clears field `t` and keeps the others.
pub nibble-cleared_self : (w t : ℕ) → t < 16 → nibble (bit_and w (bit_not (15 <<< t * 4))) t ≡ 0
nibble-cleared_self w t ht = nibble-bit_and_clear w _ t (
    omega (
      arith,
      nibble-bit_not (15 <<< t * 4) t (shl-lt 15 (t * 4)) ht,
      nibble-shl_self 15 t (omega arith) ht,
    ))

pub nibble-cleared_ne :
    (w t i : ℕ)
    → t < 16
    → i < 16
    → t ≢ i
    → nibble (bit_and w (bit_not (15 <<< t * 4))) i ≡ nibble w i
nibble-cleared_ne w t i ht hi ne = nibble-bit_and_full w _ i (
    omega (
      arith,
      nibble-bit_not (15 <<< t * 4) i (shl-lt 15 (t * 4)) hi,
      nibble-shl_ne 15 t i (omega arith) ht ne,
    ))

-- `(w & ~(0xF << (t * 4))) | (v << (t * 4))` stores `v` in field `t` and keeps the others.
pub nibble-stored_self :
    (w t v : ℕ)
    → t < 16
    → v < 16
    → nibble (bit_or (bit_and w (bit_not (15 <<< t * 4))) (v <<< t * 4)) t ≡ v
nibble-stored_self w t v ht hv =
    nibble-clear_bit_or _ _ t (nibble-cleared_self w t ht) ∙ nibble-shl_self v t hv ht

pub nibble-stored_ne :
    (w t v i : ℕ)
    → t < 16
    → v < 16
    → i < 16
    → t ≢ i
    → nibble (bit_or (bit_and w (bit_not (15 <<< t * 4))) (v <<< t * 4)) i ≡ nibble w i
nibble-stored_ne w t v i ht hv hi ne =
    nibble-bit_or_clear _ _ i (nibble-shl_ne v t i hv ht ne) ∙ nibble-cleared_ne w t i ht hi ne
