-- ===== src/HostVariable/Contents/Frame.antt =====
-- An access changes no byte but of a buffer that the process holds for writing.
use robot_ipc.Common.{
  ℕ, zero, suc, ◌+◌, ◌*◌, ◌/◌, ◌≤◌, ◌<◌, ◌≡◌, ◌≢◌, ◌∙◌, refl, sym, arith, List, [], ◌∷◌, dec_lt,
  ℕ_discrete,
}
use robot_ipc.Word.{◌>>>◌}
use robot_ipc.HostVariable.Process.{
  Shm, Pc, read_load, read_cas, read_copy, release_cas, write_cas, write_copy, publish_check,
  publish_cas, advance,
}
use robot_ipc.HostVariable.Lock.{exclusive}
use robot_ipc.HostVariable.System.{hold_of, note_publish}
use robot_ipc.HostVariable.Contents.{Agrees, Local}

slot_room : (b c size : ℕ) → b < c → b * size + size ≤ c * size
slot_room b c size h = grind arith

-- Two buffers have no byte in common.
pub slots_apart : (size b c j k : ℕ) → b ≢ c → j < size → k < size → b * size + j ≢ c * size + k
slots_apart size b c j k ne hj hk e = elim (dec_lt b c) [
  | yes p ↦ omega (arith, slot_room b c size p)
  | no p ↦ omega (arith, slot_room c b size (omega arith))
]

shift_two : (t : ℕ) → t >>> 2 ≡ t / 4
unfolding ◌>>>◌
shift_two t = omega arith

-- The bytes of a buffer that the process does not hold for writing stay.
pub advance-bytes :
    (size : ℕ) (m : Shm) (wait : ℕ) (pc : Pc)
    → Local size m pc
    → (b j : ℕ) → hold_of pc ≢ exclusive b
    → j < size
    → (advance size m wait pc).mem.bytes (b * size + j) ≡ m.bytes (b * size + j)
unfolding advance
advance-bytes size m wait (read_load op_size) l b j ne hj = refl
advance-bytes size m wait (read_cas op_size flags) l b j ne hj = ground arith
advance-bytes size m wait (read_copy target k zero buf) l b j ne hj = refl
advance-bytes size m wait (read_copy target k (suc left) buf) l b j ne hj = refl
advance-bytes size m wait (release_cas target buf flags) l b j ne hj = ground arith
advance-bytes size m wait (write_cas timestamp contents flags) l b j ne hj = ground arith
advance-bytes size m wait (write_copy target4 timestamp contents k []) l b j ne hj = refl
advance-bytes size m wait (write_copy target4 timestamp contents k (x ∷ rest)) l b j ne hj =
    let other : target4 / 4 ≢ b = λ e. ne (rw e) in
    rw (shift_two target4)
      (ground (arith, slots_apart size (target4 / 4) b k j other (omega arith) hj))
advance-bytes size m wait (publish_check target4 timestamp contents flags) l b j ne hj =
    ground arith
advance-bytes size m wait (publish_cas target4 timestamp contents flags) l b j ne hj = ground arith
advance-bytes size m wait pc l b j ne hj = refl

-- So does the version of such a buffer.
pub note_publish-other :
    (m : Shm) (pc : Pc) (version : ℕ → List ℕ) (b : ℕ)
    → hold_of pc ≢ exclusive b
    → note_publish m pc version b ≡ version b
note_publish-other m (publish_cas target4 timestamp contents flags) version b ne =
    elim (ℕ_discrete (target4 / 4) b) [ yes e ↦ absurd (ne (rw e)) | no other ↦ ground arith ]
note_publish-other m pc version b ne = refl

-- What agreed with a buffer still does after its bytes stay.
pub Agrees-frame :
    (size : ℕ) (m m' : Shm) (b k : ℕ) (xs : List ℕ)
    → k ≤ size
    → ((j : ℕ) → j < size → m'.bytes (b * size + j) ≡ m.bytes (b * size + j))
    → Agrees size m b k xs
    → Agrees size m' b k xs
Agrees-frame size m m' b k xs h same a j hj = a j hj ∙ sym (same j (omega arith))
