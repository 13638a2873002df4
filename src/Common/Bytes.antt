-- ===== src/Common/Bytes.antt =====
-- How numbers stand in memory and in messages: the byte order of a machine.
use Prim.Native.Nat.{ℕ, zero, suc, ◌+◌, ◌*◌, ◌/◌, ◌%◌, ◌^◌, ◌<◌}
use mathlib.Core.Path.{◌≡◌, refl}
use mathlib.Core.List.{List, [], ◌∷◌}
use native.Mathlib.Omega.{arith}
use robot_ipc.Common.Lists.{length}

pub record ByteOrder : Type 0 where
  pub to_bytes : (width n : ℕ) → List ℕ
  pub from_bytes : List ℕ → ℕ

-- A number that fits in its bytes is read back.
pub record IsByteOrder (order : ByteOrder) : Type 0 where
  pub sized : (width n : ℕ) → length (order.to_bytes width n) ≡ width
  pub read_back : (width n : ℕ) → n < 256 ^ width → order.from_bytes (order.to_bytes width n) ≡ n

abbrev pub low_first : (width n : ℕ) → List ℕ
low_first zero n = []
low_first (suc width) n = (n % 256) ∷ low_first width (n / 256)

abbrev pub from_low_first : List ℕ → ℕ
from_low_first [] = 0
from_low_first (b ∷ bs) = b + 256 * from_low_first bs

length-low_first : (width n : ℕ) → length (low_first width n) ≡ width
length-low_first zero n = refl
length-low_first (suc width) n = omega (arith, length-low_first width (n / 256))

from_low_first-low_first : (width n : ℕ) → n < 256 ^ width → from_low_first (low_first width n) ≡ n
from_low_first-low_first zero n h = omega (arith, h)
from_low_first-low_first (suc width) n h =
    omega (arith, from_low_first-low_first width (n / 256) (omega (arith, h)))

abbrev pub little_endian : ByteOrder
little_endian = record { to_bytes = low_first; from_bytes = from_low_first }

pub little_endian-IsByteOrder : IsByteOrder little_endian
little_endian-IsByteOrder = record {
  sized = length-low_first;
  read_back = from_low_first-low_first;
}
