-- ===== src/HostVariable/Flags/FreeMask.antt =====
-- `free_mask` of `write_host_variable`: it has bit `4 b` where buffer `b` is free.
use robot_ipc.Common.{
  ℕ, ◌*◌, ◌/◌, ◌%◌, ◌<◌, ◌≡◌, ◌≢◌, refl, max, arith, bit_and, bit_or, ◌==◌, ==_iff, true,
  each_below, each_below_sound, ℕ_discrete,
}
use robot_ipc.Word.{
  u64_mod, ◌<<<◌, ◌>>>◌, bit_not, nibble, nibble-lt, nibble-bit_or_low, nibble-half, nibble-fourth,
  nibble-eighth, nibble-bit_not, nibble-bit_and_one, nibble-bit_and_clear, nibble-shl_self,
  nibble-shl_ne, bit_or-lt_u64, bit_and-lt_u64, bit_not-lt, shl-lt,
}
use robot_ipc.HostVariable.Flags.{free_mask}
use robot_ipc.HostVariable.Flags.Target.{target-nibble}

ones_table : each_below (λ i. nibble 0x0111111111111111 i == 1) 15 ≡ true
unfolding each_below nibble
ones_table = refl

ones : (i : ℕ) → i < 15 → nibble 0x0111111111111111 i ≡ 1
ones i h = (==_iff _ 1).0 (each_below_sound _ 15 ones_table i h)

-- The word under `~` in `free_mask`.
abbrev busy : ℕ → ℕ
busy w = bit_or (bit_or (bit_or (bit_or w (w >>> 1)) (w >>> 2)) (w >>> 3)) (0xF <<< nibble w 15 * 4)

busy-lt : (w : ℕ) → w < u64_mod → busy w < u64_mod
unfolding ◌>>>◌
busy-lt w h =
    bit_or-lt_u64 _ _
      (bit_or-lt_u64 _ _ (bit_or-lt_u64 _ _ (bit_or-lt_u64 w (w / 2) h (omega arith)) (omega arith))
        (omega arith))
      (shl-lt _ _)

busy-low :
    (w i : ℕ)
    → nibble (busy w) i % 2
      ≡ max
          (max
            (max (max (nibble w i % 2) (nibble w i / 2 % 2)) (nibble w i / 4 % 2))
            (nibble w i / 8 % 2))
          (nibble (0xF <<< nibble w 15 * 4) i % 2)
unfolding ◌>>>◌
busy-low w i = simp (nibble-bit_or_low, nibble-half, nibble-fourth, nibble-eighth)

free_mask-busy : (w : ℕ) → w < u64_mod → free_mask w ≡ bit_and (bit_not (busy w)) 0x0111111111111111
unfolding free_mask
free_mask-busy w h = rw (target-nibble w h)

-- A buffer that nobody holds and that is not the target is free.
pub free_mask-free :
    (w i : ℕ) → w < u64_mod → i < 15 → nibble w i ≡ 0 → nibble w 15 ≢ i → nibble (free_mask w) i ≡ 1
free_mask-free w i hw hi clear apart =
    rw (free_mask-busy w hw, nibble-bit_and_one _ _ i (ones i hi))
      (omega (
        arith,
        nibble-bit_not (busy w) i (busy-lt w hw) (omega arith),
        busy-low w i,
        nibble-lt (busy w) i,
        nibble-shl_ne 15 (nibble w 15) i (omega arith) (nibble-lt w 15) apart,
      ))

-- No other buffer is.
pub free_mask-held : (w i : ℕ) → w < u64_mod → i < 15 → nibble w i ≢ 0 → nibble (free_mask w) i ≡ 0
free_mask-held w i hw hi held =
    rw (free_mask-busy w hw, nibble-bit_and_one _ _ i (ones i hi))
      (omega (
        arith,
        nibble-bit_not (busy w) i (busy-lt w hw) (omega arith),
        busy-low w i,
        nibble-lt (busy w) i,
        nibble-lt w i,
      ))

pub free_mask-target :
    (w : ℕ) → w < u64_mod → nibble w 15 < 15 → nibble (free_mask w) (nibble w 15) ≡ 0
free_mask-target w hw hi =
    rw (free_mask-busy w hw, nibble-bit_and_one _ _ (nibble w 15) (ones (nibble w 15) hi))
      (omega (
        arith,
        nibble-bit_not (busy w) (nibble w 15) (busy-lt w hw) (nibble-lt w 15),
        busy-low w (nibble w 15),
        nibble-lt (busy w) (nibble w 15),
        nibble-shl_self 15 (nibble w 15) (omega arith) (nibble-lt w 15),
      ))

pub free_mask_top : (w : ℕ) → w < u64_mod → nibble (free_mask w) 15 ≡ 0
unfolding nibble
free_mask_top w hw =
    rw (free_mask-busy w hw) (nibble-bit_and_clear (bit_not (busy w)) 0x0111111111111111 15 refl)

pub free_mask-lt : (w : ℕ) → w < u64_mod → free_mask w < u64_mod
free_mask-lt w hw = rw (free_mask-busy w hw) (bit_and-lt_u64 _ _ (bit_not-lt _) (omega arith))

pub free_mask_small : (w : ℕ) → w < u64_mod → (i : ℕ) → i < 16 → nibble (free_mask w) i < 2
free_mask_small w hw i hi = elim (ℕ_discrete i 15) [
  | yes top ↦ rw top (omega (arith, free_mask_top w hw))
  | no low ↦ rw (free_mask-busy w hw, nibble-bit_and_one _ _ i (ones i (omega arith))) (omega arith)
]
