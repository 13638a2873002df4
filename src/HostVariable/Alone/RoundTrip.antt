-- ===== src/HostVariable/Alone/RoundTrip.antt =====
-- A write, and then a read, that nobody interrupts.
use robot_ipc.Common.{
  ℕ, suc, ◌+◌, ◌*◌, ◌<◌, ◌≤◌, ◌≡◌, inl, inr, refl, ◌∙◌, ap, arith, List, [], pos, length, ◌++◌,
  ℕ_discrete, dec_lt,
}
use robot_ipc.Word.{u64_mod, nibble}
use robot_ipc.HostVariable.Flags.{shm_buffer_cnt}
use robot_ipc.HostVariable.Flags.Writers.{IsFree, Claimed, claim_cases}
use robot_ipc.HostVariable.Process.{Shm, to, begin_write, begin_read, returned}
use robot_ipc.Common.{total-const_zero}
use robot_ipc.HostVariable.Lock.{weight}
use robot_ipc.HostVariable.System.{new_shm, init, holds, Reach, start}
use robot_ipc.HostVariable.Contents.Reachable.{Reach-Inv}
use robot_ipc.HostVariable.Alone.{run}
use robot_ipc.HostVariable.Alone.Writing.{stored, Written, after_write, write_runs, write-Written}
use robot_ipc.HostVariable.Alone.Reading.{
  taken, taken-add, length-taken, taken-stored, after_read, read_runs, read-flags,
}

-- Nobody holds a buffer.
pub record IsQuiet (m : Shm) : Type 0 where
  pub fits : m.flags < u64_mod
  pub target : nibble m.flags 15 < shm_buffer_cnt
  pub unheld : (b : ℕ) → b < shm_buffer_cnt → nibble m.flags b ≡ 0
  pub closed : (b : ℕ) → shm_buffer_cnt ≤ b → b < 15 → nibble m.flags b ≡ 15

-- A new variable is quiet.
pub new_shm-IsQuiet : (bytes : ℕ → ℕ) → IsQuiet (new_shm bytes)
new_shm-IsQuiet bytes =
    let fresh : Reach 0 0 bytes (init bytes) = start in
    let locked = (Reach-Inv fresh).locked in
    record {
      fits = locked.fits;
      target = locked.target;
      unheld = λ b hb.
          locked.counted b hb
          ∙ total-const_zero (weight b) 0 (holds (init bytes).process) (λ i. refl);
      closed = locked.closed;
    }

-- One of the first two buffers is free.
IsQuiet-IsFree : (m : Shm) → IsQuiet m → (b : ℕ) × (b < 15) × IsFree m.flags b
IsQuiet-IsFree m q = elim (ℕ_discrete (nibble m.flags 15) 0) [
  | yes first ↦ (1, omega arith, (q.unheld 1 (omega arith), λ e. omega arith))
  | no other ↦ (0, omega arith, (q.unheld 0 (omega arith), other))
]

IsQuiet-Claimed : (m : Shm) → IsQuiet m → (b w' : ℕ) × Claimed m.flags b w' × (b < shm_buffer_cnt)
IsQuiet-Claimed m q = elim (claim_cases m.flags q.fits (omega (arith, q.target))) [
  | inl none_free ↦ let (b, low, free) = IsQuiet-IsFree m q in absurd (none_free.1 b low free)
  | inr (b, w', c) ↦ (
    b,
    w',
    c,
    elim (dec_lt b shm_buffer_cnt) [
      | yes low ↦ low
      | no high ↦ absurd (omega (arith, c.free.0, q.closed b (omega arith) c.low))
    ],
  )
]

Written-IsQuiet :
    (size : ℕ) (m : Shm) (b timestamp : ℕ) (contents : List ℕ) (m' : Shm)
    → IsQuiet m
    → b < shm_buffer_cnt
    → Written size m b timestamp contents m'
    → IsQuiet m'
Written-IsQuiet size m b timestamp contents m' q low w = record {
  fits = w.fits;
  target = omega (arith, w.target);
  unheld = λ c hc. elim (ℕ_discrete c b) [
    | yes same ↦ rw same w.unread
    | no other ↦ w.others c (omega arith) other ∙ q.unheld c hc
  ];
  closed = λ c lo hi. w.others c hi (λ e. omega arith) ∙ q.closed c lo hi;
}

-- The bytes that a read of `op_size` bytes then finds, where buffer `b` was written.
pub write_then_read_lem :
    (size timestamp : ℕ) (contents : List ℕ) (m : Shm) (op_size : ℕ)
    → IsQuiet m
    → m.timestamp (nibble m.flags 15) < timestamp
    → (b : ℕ) × (m' m'' : Shm) × (run size
          (3 + (suc (length contents) + 3))
          (record { mem = m; process = begin_write timestamp contents })
        ≡ to m' 0 (returned (pos 0) []))
      × (run size (2 + (suc op_size + 2)) (record { mem = m'; process = begin_read op_size })
          ≡ to m'' 0 (
              returned (pos 0) (taken (stored m.bytes (b * size) 0 contents) (b * size) 0 op_size)))
      × IsQuiet m'
      × IsQuiet m''
      × (m''.timestamp (nibble m''.flags 15) ≡ timestamp)
write_then_read_lem size timestamp contents m op_size q newest =
    let (b, w', c, low) = IsQuiet-Claimed m q in
    let m' = after_write size b w' timestamp contents m q.fits c newest in
    let w = write-Written size b w' timestamp contents m q.fits c newest in
    let q' = Written-IsQuiet size m b timestamp contents m' q low w in
    let room : nibble m'.flags (nibble m'.flags 15) < 14 = rw w.target (omega (arith, w.unread)) in
    let m'' = after_read size op_size m' q'.fits room in
    let f = read-flags size op_size m' q'.fits room in
    let same : taken m'.bytes (nibble m'.flags 15 * size) 0 op_size
        ≡ taken (stored m.bytes (b * size) 0 contents) (b * size) 0 op_size =
      ap (λ (t : ℕ). taken m'.bytes (t * size) 0 op_size) w.target
      ∙ ap (λ (bytes : ℕ → ℕ). taken bytes (b * size) 0 op_size) w.bytes in
    (
      b,
      m',
      m'',
      write_runs size b w' timestamp contents m q.fits c newest,
      read_runs size op_size m' q'.fits room
          ∙ ap (λ (xs : List ℕ). to m'' 0 (returned (pos 0) xs)) same,
      q',
      record {
        fits = f.0;
        target = rw (f.1 15 (omega arith)) q'.target;
        unheld = λ c hc. f.1 c (omega arith) ∙ q'.unheld c hc;
        closed = λ c lo hi. f.1 c (omega arith) ∙ q'.closed c lo hi;
      },
      ap m'.timestamp (f.1 15 (omega arith) ∙ w.target) ∙ w.stamp,
    )

-- A write to a quiet variable with a timestamp later than the target's returns 0 after as many
-- accesses as it has bytes and seven more, and the variable is quiet again; a read of as many bytes
-- then returns 0 with what was written, after as many accesses as it has bytes and five more, and
-- the variable is quiet again, with the write's timestamp at its target.
pub write_then_read :
    (size timestamp : ℕ) (contents : List ℕ) (m : Shm)
    → IsQuiet m
    → m.timestamp (nibble m.flags 15) < timestamp
    → (m' m'' : Shm) × (run size
          (3 + (suc (length contents) + 3))
          (record { mem = m; process = begin_write timestamp contents })
        ≡ to m' 0 (returned (pos 0) []))
      × (run size
            (2 + (suc (length contents) + 2))
            (record { mem = m'; process = begin_read (length contents) })
          ≡ to m'' 0 (returned (pos 0) contents))
      × IsQuiet m'
      × IsQuiet m''
      × (m''.timestamp (nibble m''.flags 15) ≡ timestamp)
write_then_read size timestamp contents m q newest =
    let (b, m', m'', wrote, found, q', q'', stamp) =
      write_then_read_lem size timestamp contents m (length contents) q newest in
    (
      m',
      m'',
      wrote,
      found
          ∙ ap (λ (xs : List ℕ). to m'' 0 (returned (pos 0) xs))
              (taken-stored m.bytes (b * size) 0 contents),
      q',
      q'',
      stamp,
    )

-- A read of more bytes than were written finds what was written in front.
pub write_then_read_more :
    (size timestamp : ℕ) (contents : List ℕ) (m : Shm) (more : ℕ)
    → IsQuiet m
    → m.timestamp (nibble m.flags 15) < timestamp
    → (m' m'' : Shm) × (rest : List ℕ) × (length rest ≡ more)
      × (run size
            (3 + (suc (length contents) + 3))
            (record { mem = m; process = begin_write timestamp contents })
          ≡ to m' 0 (returned (pos 0) []))
      × (run size
            (2 + (suc (length contents + more) + 2))
            (record { mem = m'; process = begin_read (length contents + more) })
          ≡ to m'' 0 (returned (pos 0) (contents ++ rest)))
      × IsQuiet m'
      × IsQuiet m''
      × (m''.timestamp (nibble m''.flags 15) ≡ timestamp)
write_then_read_more size timestamp contents m more q newest =
    let (b, m', m'', wrote, found, q', q'', stamp) =
      write_then_read_lem size timestamp contents m (length contents + more) q newest in
    let bytes = stored m.bytes (b * size) 0 contents in
    let rest = taken bytes (b * size) (0 + length contents) more in
    (
      m',
      m'',
      rest,
      length-taken bytes (b * size) (0 + length contents) more,
      wrote,
      found
          ∙ ap (λ (xs : List ℕ). to m'' 0 (returned (pos 0) xs))
              (taken-add bytes (b * size) 0 (length contents) more
                ∙ ap (λ (xs : List ℕ). xs ++ rest) (taken-stored m.bytes (b * size) 0 contents)),
      q',
      q'',
      stamp,
    )
