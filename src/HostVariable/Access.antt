-- ===== src/HostVariable/Access.antt =====
-- Each access that a process makes to the shared memory, in the states that the system reaches.
use robot_ipc.Common.{ℕ, suc, ◌/◌, ◌<◌, ◌≡◌, refl, arith, List, ◌∷◌}
use robot_ipc.Word.{◌>>>◌}
use robot_ipc.HostVariable.Flags.{shm_buffer_cnt}
use robot_ipc.HostVariable.Process.{read_copy, write_copy, advance}
use robot_ipc.HostVariable.Lock.{LockStep}
use robot_ipc.HostVariable.System.{System, hold_of, Reach}
use robot_ipc.HostVariable.Refine.{advance-Refines}
use robot_ipc.HostVariable.Contents.{Local}
use robot_ipc.HostVariable.Contents.Observe.{Local-Aligned}
use robot_ipc.HostVariable.Contents.Reachable.{Reach-Inv}

-- In every reachable state, the next access of a process changes the flags and what the process
-- holds by a step of the abstract lock: it keeps both, acquires or releases a count of the target,
-- takes a free buffer, publishes the one it holds, or drops it.
pub advance-LockStep :
    {n size : ℕ} {bytes : ℕ → ℕ} {s : System}
    → Reach n size bytes s
    → (i : ℕ) → i < n
    → let old = s.process i in
      let next = advance size s.mem old.should_wait old.pc in
      LockStep s.mem.flags (hold_of old.pc) next.mem.flags (hold_of next.process.pc)
advance-LockStep {size} {s} r i hi =
    let inv = Reach-Inv r in
    let old = s.process i in
    (advance-Refines s.mem inv.locked size old.should_wait i old.pc hi refl
      (Local-Aligned size s.mem old.pc (inv.locals i hi))).0

-- In every reachable state, a process that is about to copy a byte of a read takes it from inside
-- one of the buffers: the buffer exists and the offset is less than its size.
pub read_in_bounds :
    {n size : ℕ} {bytes : ℕ → ℕ} {s : System}
    → Reach n size bytes s
    → (i target k left : ℕ) (buf : List ℕ) → i < n
    → (s.process i).pc ≡ read_copy target k (suc left) buf
    → (target < shm_buffer_cnt) × (k < size)
read_in_bounds {size} {s} r i target k left buf hi e =
    let inv = Reach-Inv r in
    let range : target < shm_buffer_cnt = rw e at (inv.locked.ranges i hi) in
    let known : Local size s.mem (read_copy target k (suc left) buf) = rw e at (inv.locals i hi) in
    (range, omega (arith, known.0))

-- In every reachable state, a process that is about to store a byte of a write stores it inside
-- one of the buffers: the buffer exists and the offset is less than its size.
pub write_in_bounds :
    {n size : ℕ} {bytes : ℕ → ℕ} {s : System}
    → Reach n size bytes s
    → (i target4 timestamp k byte : ℕ) (contents rest : List ℕ) → i < n
    → (s.process i).pc ≡ write_copy target4 timestamp contents k (byte ∷ rest)
    → (target4 >>> 2 < shm_buffer_cnt) × (k < size)
unfolding ◌>>>◌
write_in_bounds {size} {s} r i target4 timestamp k byte contents rest hi e =
    let inv = Reach-Inv r in
    let range : target4 / 4 < shm_buffer_cnt = rw e at (inv.locked.ranges i hi) in
    let known : Local size s.mem (write_copy target4 timestamp contents k (byte ∷ rest)) =
      rw e at (inv.locals i hi) in
    (range, omega (arith, known.1, known.2))
