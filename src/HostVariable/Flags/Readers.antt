-- ===== src/HostVariable/Flags/Readers.antt =====
-- `__acquire_read_lock` and `__release_read_lock` count one reader up and down.
use robot_ipc.Common.{
  ℕ, ◌+◌, ◌-◌, ◌*◌, ◌<◌, ◌≡◌, refl, arith, bit_and, bit_or, none, some, ℕ_discrete,
}
use robot_ipc.Word.{
  u64, u64_mod, ◌<<<◌, bit_not, nibble, nibble-lt, field_lem, nibble-stored_self, nibble-stored_ne,
  bit_or-lt_u64, bit_and-lt_u64, bit_not-lt, shl-lt,
}
use robot_ipc.HostVariable.Flags.{acquire_read, release_read}
use robot_ipc.HostVariable.Flags.Target.{target-nibble, Stores}

Stores-field :
    (w t v : ℕ)
    → w < u64_mod
    → t < 16
    → v < 16
    → Stores w t v (bit_or (bit_and w (bit_not (0xF <<< t * 4))) (v <<< t * 4))
Stores-field w t v hw ht hv = record {
  fits = bit_or-lt_u64 _ _ (bit_and-lt_u64 _ _ hw (bit_not-lt _)) (shl-lt v (t * 4));
  stored = nibble-stored_self w t v ht hv;
  others = λ i hi ne. nibble-stored_ne w t v i ht hv hi ne;
}

-- On a 64-bit word whose target has fewer than fourteen readers, `acquire_read` returns the target and
-- a word in which its count is one more and every other field is the same.
pub acquire_read_lem :
    (w : ℕ)
    → w < u64_mod
    → nibble w (nibble w 15) < 14
    → (w' : ℕ) × (acquire_read w ≡ some (nibble w 15, w'))
      × Stores w (nibble w 15) (nibble w (nibble w 15) + 1) w'
unfolding acquire_read
acquire_read_lem w hw room = (
  bit_or (bit_and w (bit_not (0xF <<< nibble w 15 * 4)))
      ((nibble w (nibble w 15) + 1) <<< nibble w 15 * 4),
  rw (target-nibble w hw, field_lem) (ground arith),
  Stores-field w (nibble w 15) _ hw (nibble-lt w 15) (omega arith),
)

-- Where the target has fourteen readers, `acquire_read` fails.
pub acquire_read-full : (w : ℕ) → w < u64_mod → nibble w (nibble w 15) ≡ 14 → acquire_read w ≡ none
unfolding acquire_read
acquire_read-full w hw full = rw (target-nibble w hw, field_lem, full) refl

-- Where the count of buffer `t` is not 0, `release_read` stores one less and changes no other field.
pub release_read-Stores :
    (w t : ℕ)
    → w < u64_mod
    → t < 16
    → 0 < nibble w t
    → Stores w t (nibble w t - 1) (release_read t w)
unfolding release_read
release_read-Stores w t hw ht pos = rw (field_lem w t) (
    let e : u64 (nibble w t + u64_mod - 1) ≡ nibble w t - 1 = omega (arith, nibble-lt w t) in
    rw e (Stores-field w t (nibble w t - 1) hw ht (omega (arith, nibble-lt w t))))

-- Where the target has at most fourteen readers, a success is a count that went up by one.
pub acquire_read-eq-some :
    (w t w' : ℕ)
    → w < u64_mod
    → nibble w (nibble w 15) < 15
    → acquire_read w ≡ some (t, w')
    → (t ≡ nibble w 15) × (nibble w t < 14) × Stores w t (nibble w t + 1) w'
acquire_read-eq-some w t w' hw room e = elim (ℕ_discrete (nibble w (nibble w 15)) 14) [
  | yes full ↦ absurd (cc (acquire_read-full w hw full))
  | no more ↦
      let (w'', e', s) = acquire_read_lem w hw (omega arith) in
      let et : t ≡ nibble w 15 = ground arith in
      let ew : w' ≡ w'' = ground arith in rw (et, ew) (refl, omega arith, s)
]
