-- ===== src/HostVariable/Timestamp.antt =====
-- `get_compressed_timestamp` of src/host_variable.c: the time since boot in one 64-bit word. What
-- `clock_gettime` gives is a parameter.
use robot_ipc.Common.{ℕ, ◌+◌, ◌*◌, ◌%◌, ◌^◌, ◌<◌, ◌≡◌, ◌⊎◌, ◌↔◌, bit_and, bit_or, arith, ◌∙◌, ap₂}
use robot_ipc.Word.{◌<<<◌, bit_or-pack, bit_and-mask, u64_mod}

-- `struct timespec`: seconds, and nanoseconds below a second.
pub record Timespec : Type 0 where
  pub tv_sec : ℕ
  pub tv_nsec : ℕ

pub record IsTime (t : Timespec) : Type 0 where
  pub seconds : t.tv_sec < 2 ^ 32
  pub below_second : t.tv_nsec < 1000000000

unfoldable pub get_compressed_timestamp : Timespec → ℕ
get_compressed_timestamp t = bit_or (t.tv_sec <<< 32) (bit_and t.tv_nsec 0xFFFFFFFF)

-- The earlier of two times.
abbrev pub IsBefore : Timespec → Timespec → Type 0
IsBefore s t = (s.tv_sec < t.tv_sec) ⊎ ((s.tv_sec ≡ t.tv_sec) × (s.tv_nsec < t.tv_nsec))

pub get_compressed_timestamp_lem :
    (t : Timespec) → IsTime t → get_compressed_timestamp t ≡ t.tv_sec * 2 ^ 32 + t.tv_nsec
unfolding get_compressed_timestamp ◌<<<◌
get_compressed_timestamp_lem t h =
    let high : t.tv_sec * 2 ^ 32 % u64_mod ≡ t.tv_sec * 2 ^ 32 = omega (arith, h.seconds) in
    let low : bit_and t.tv_nsec 0xFFFFFFFF ≡ t.tv_nsec =
      bit_and-mask 32 t.tv_nsec (omega (arith, h.below_second)) in
    ap₂ bit_or high low ∙ bit_or-pack 32 t.tv_sec t.tv_nsec (omega (arith, h.below_second))

-- For 2 ^ 32 seconds after the boot, that is for 136 years, the compressed timestamps are in the
-- order of the times and fit in 64 bits.
pub compressed_order :
    (s t : Timespec)
    → IsTime s
    → IsTime t
    → (IsBefore s t ↔ (get_compressed_timestamp s < get_compressed_timestamp t))
      × (get_compressed_timestamp s < u64_mod)
compressed_order s t hs ht = ground (
  arith,
  get_compressed_timestamp_lem s hs,
  get_compressed_timestamp_lem t ht,
  hs.seconds,
  hs.below_second,
  ht.seconds,
  ht.below_second,
)
