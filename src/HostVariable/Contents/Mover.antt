-- ===== src/HostVariable/Contents/Mover.antt =====
-- An access keeps what the local variables say: those of the process that makes it, and those of
-- the others.
use robot_ipc.Common.{
  ℕ, zero, suc, ◌+◌, ◌*◌, ◌/◌, ◌≤◌, ◌<◌, ◌≡◌, ◌⊎◌, inl, inr, ◌∙◌, refl, sym, arith, List, [], ◌∷◌,
  ◌++◌, Option, none, some, ◌==◌, leb, length, length-append, get_or, get_or-append_lt,
  get_or-append_length, update, dec_lt, Bool-cases, ap,
}
use robot_ipc.Word.{◌>>>◌}
use robot_ipc.HostVariable.Flags.{target_of, acquire_read, claim}
use robot_ipc.HostVariable.Process.{
  Shm, Pc, read_load, read_cas, read_copy, release_load, release_cas, write_load, write_cas,
  write_stamp, write_copy, publish_load, publish_check, publish_cas, write_drop, advance,
  attempt_read, attempt_claim,
}
use robot_ipc.HostVariable.Lock.{exclusive, shared}
use robot_ipc.HostVariable.System.{hold_of}
use robot_ipc.HostVariable.Refine.{Aligned}
use robot_ipc.HostVariable.Contents.{Agrees, Local}
use robot_ipc.HostVariable.Contents.Frame.{Agrees-frame}

shift_two : (t : ℕ) → t >>> 2 ≡ t / 4
unfolding ◌>>>◌
shift_two t = omega arith

-- One byte more is read.
Agrees-read :
    (size : ℕ) (m : Shm) (b k : ℕ) (buf : List ℕ)
    → length buf ≡ k
    → Agrees size m b k buf
    → Agrees size m b (k + 1) (buf ++ m.bytes (b * size + k) ∷ [])
Agrees-read size m b k buf e a j hj = elim (dec_lt j k) [
  | yes p ↦ get_or-append_lt buf _ j 0 (omega arith) ∙ a j p
  | no p ↦
      let last : j ≡ length buf = omega arith in
      rw last (get_or-append_length buf _ [] 0 ∙ ap (λ i. m.bytes (b * size + i)) (sym e))
]

-- One byte more is written.
Agrees-write :
    (size : ℕ) (m m' : Shm) (b k x : ℕ) (contents : List ℕ)
    → m'.bytes ≡ update m.bytes (b * size + k) x
    → x ≡ get_or contents k 0
    → Agrees size m b k contents
    → Agrees size m' b (k + 1) contents
Agrees-write size m m' b k x contents em ex a j hj = rw em (elim (dec_lt j k) [
  | yes p ↦ ground (arith, a j)
  | no p ↦ let last : j ≡ k = omega arith in rw last (ground arith)
])

attempt_read-Local :
    (size : ℕ) (m : Shm) (wait op_size flags : ℕ) (o : Option (ℕ × ℕ))
    → op_size ≤ size
    → let next = attempt_read m wait op_size flags o in Local size next.mem next.process.pc
attempt_read-Local size m wait op_size flags none l = tt
attempt_read-Local size m wait op_size flags (some (target, w)) l =
    elim (Bool-cases (m.flags == flags)) [
      | inl same ↦ rw same (omega arith, refl, λ j hj. absurd (omega arith))
      | inr other ↦ rw other l
    ]

attempt_claim-Local :
    (size : ℕ) (m : Shm) (wait timestamp : ℕ) (contents : List ℕ) (flags : ℕ) (o : Option (ℕ × ℕ))
    → length contents ≤ size
    → let next = attempt_claim m wait timestamp contents flags o in
      Aligned next.process.pc → Local size next.mem next.process.pc
attempt_claim-Local size m wait timestamp contents flags none l al = tt
attempt_claim-Local size m wait timestamp contents flags (some (target4, w)) l al =
    elim (Bool-cases (m.flags == flags)) [
      | inl same ↦ rw same (rw same at al, l)
      | inr other ↦ rw other l
    ]

pub advance-Local :
    (size : ℕ) (m : Shm) (wait : ℕ) (pc : Pc)
    → Local size m pc
    → let next = advance size m wait pc in
      Aligned next.process.pc → Local size next.mem next.process.pc
unfolding advance
advance-Local size m wait (read_load op_size) l al = l
advance-Local size m wait (read_cas op_size flags) l al =
    attempt_read-Local size m wait op_size flags (acquire_read flags) l
advance-Local size m wait (read_copy target k zero buf) l al = (omega (arith, l.0, l.1), rw l.1 l.2)
advance-Local size m wait (read_copy target k (suc left) buf) l al = (
  omega (arith, l.0),
  omega (arith, length-append buf (m.bytes (target * size + k) ∷ []), l.1),
  Agrees-read size m target k buf l.1 l.2,
)
advance-Local size m wait (release_load target buf) l al = l
advance-Local size m wait (release_cas target buf flags) l al =
    elim (Bool-cases (m.flags == flags)) [ inl same ↦ rw same tt | inr other ↦ rw other l ]
advance-Local size m wait (write_load timestamp contents) l al = l
advance-Local size m wait (write_cas timestamp contents flags) l al =
    attempt_claim-Local size m wait timestamp contents flags (claim flags) l al
advance-Local size m wait (write_stamp target4 timestamp contents) l al = (
  al,
  l.1,
  omega arith,
  λ j hj. absurd (omega arith),
  λ j hj. ap (λ i. get_or contents i 0) (omega arith),
)
advance-Local size m wait (write_copy target4 timestamp contents k []) l al =
    let e : k ≡ length contents = omega (arith, l.2) in (al, l.1, rw e at (l.3))
advance-Local size m wait (write_copy target4 timestamp contents k (x ∷ rest)) l al = (
  al,
  l.1,
  omega (arith, l.2),
  Agrees-write size m (record m { bytes = update m.bytes ((target4 >>> 2) * size + k) x })
      (target4 / 4) k x contents (rw (shift_two target4))
      (l.4 0 (omega arith) ∙ ap (λ i. get_or contents i 0) (omega arith)) l.3,
  λ j hj. l.4 (suc j) (omega arith) ∙ ap (λ i. get_or contents i 0) (omega arith),
)
advance-Local size m wait (publish_load target4 timestamp contents) l al = l
advance-Local size m wait (publish_check target4 timestamp contents flags) l al =
    elim (Bool-cases (leb timestamp (m.timestamp (target_of flags)))) [
      | inl late ↦ rw late l.0
      | inr latest ↦ rw latest l
    ]
advance-Local size m wait (publish_cas target4 timestamp contents flags) l al =
    elim (Bool-cases (m.flags == flags)) [ inl same ↦ rw same tt | inr other ↦ rw other l ]
advance-Local size m wait pc l al = tt

-- A process keeps its knowledge where the bytes of the buffer that it holds stay.
pub Local-frame :
    (size : ℕ) (m m' : Shm) (pc : Pc)
    → ((b : ℕ)
        → (hold_of pc ≡ exclusive b) ⊎ (hold_of pc ≡ shared b)
        → (j : ℕ) → j < size
        → m'.bytes (b * size + j) ≡ m.bytes (b * size + j))
    → Local size m pc
    → Local size m' pc
Local-frame size m m' (read_load op_size) same l = l
Local-frame size m m' (read_cas op_size flags) same l = l
Local-frame size m m' (read_copy target k left buf) same l = (
  l.0,
  l.1,
  Agrees-frame size m m' target k buf (omega (arith, l.0)) (same target (inr refl)) l.2,
)
Local-frame size m m' (release_load target buf) same l =
    (l.0, Agrees-frame size m m' target (length buf) buf l.0 (same target (inr refl)) l.1)
Local-frame size m m' (release_cas target buf flags) same l =
    (l.0, Agrees-frame size m m' target (length buf) buf l.0 (same target (inr refl)) l.1)
Local-frame size m m' (write_load timestamp contents) same l = l
Local-frame size m m' (write_cas timestamp contents flags) same l = l
Local-frame size m m' (write_stamp target4 timestamp contents) same l = l
Local-frame size m m' (write_copy target4 timestamp contents k rest) same l = (
  l.0,
  l.1,
  l.2,
  Agrees-frame size m m' (target4 / 4) k contents (omega (arith, l.1, l.2))
      (same (target4 / 4) (inl refl)) l.3,
  l.4,
)
Local-frame size m m' (publish_load target4 timestamp contents) same l = (
  l.0,
  l.1,
  Agrees-frame size m m' (target4 / 4) (length contents) contents l.1
      (same (target4 / 4) (inl refl)) l.2,
)
Local-frame size m m' (publish_check target4 timestamp contents flags) same l = (
  l.0,
  l.1,
  Agrees-frame size m m' (target4 / 4) (length contents) contents l.1
      (same (target4 / 4) (inl refl)) l.2,
)
Local-frame size m m' (publish_cas target4 timestamp contents flags) same l = (
  l.0,
  l.1,
  Agrees-frame size m m' (target4 / 4) (length contents) contents l.1
      (same (target4 / 4) (inl refl)) l.2,
)
Local-frame size m m' (write_drop target4) same l = l
Local-frame size m m' pc same l = tt
