-- ===== src/HostVariable/Contents.antt =====
-- The invariant of the whole system: the lock, what each process knows of the bytes from its own
-- copying, and what the buffers contain that can be read.
pub mod Frame
pub mod Mover
pub mod Observe
pub mod Preserve
pub mod Reachable
use robot_ipc.Common.{ℕ, ◌+◌, ◌*◌, ◌/◌, ◌≤◌, ◌<◌, ◌≡◌, ◌⊎◌, List, length, get_or}
use robot_ipc.Word.{nibble}
use robot_ipc.HostVariable.Flags.{shm_buffer_cnt}
use robot_ipc.HostVariable.Process.{
  Shm, Pc, read_load, read_cas, read_copy, release_load, release_cas, write_load, write_cas,
  write_stamp, write_copy, publish_load, publish_check, publish_cas, write_drop, Process,
}
use robot_ipc.HostVariable.Lock.{Hold, shared, IsLocked}
use robot_ipc.HostVariable.System.{System, holds}
use robot_ipc.HostVariable.Refine.{IsAligned}

-- The first `k` bytes of buffer `b` are those of `xs`.
abbrev pub Agrees : (size : ℕ) → Shm → (b k : ℕ) → List ℕ → Type 0
Agrees size m b k xs = (j : ℕ) → j < k → get_or xs j 0 ≡ m.bytes (b * size + j)

-- What the local variables of a process say about the bytes.
abbrev pub Local : (size : ℕ) → Shm → Pc → Type 0
Local size m (read_load op_size) = op_size ≤ size
Local size m (read_cas op_size flags) = op_size ≤ size
Local size m (read_copy target k left buf) =
    (k + left ≤ size) × (length buf ≡ k) × Agrees size m target k buf
Local size m (release_load target buf) = (length buf ≤ size) × Agrees size m target (length buf) buf
Local size m (release_cas target buf flags) =
    (length buf ≤ size) × Agrees size m target (length buf) buf
Local size m (write_load timestamp contents) = length contents ≤ size
Local size m (write_cas timestamp contents flags) = length contents ≤ size
Local size m (write_stamp target4 timestamp contents) = IsAligned target4 × (length contents ≤ size)
Local size m (write_copy target4 timestamp contents k rest) =
    IsAligned target4
    × (length contents ≤ size)
    × (k + length rest ≡ length contents)
    × Agrees size m (target4 / 4) k contents
    × ((j : ℕ) → j < length rest → get_or rest j 0 ≡ get_or contents (k + j) 0)
Local size m (publish_load target4 timestamp contents) =
    IsAligned target4
    × (length contents ≤ size)
    × Agrees size m (target4 / 4) (length contents) contents
Local size m (publish_check target4 timestamp contents flags) =
    IsAligned target4
    × (length contents ≤ size)
    × Agrees size m (target4 / 4) (length contents) contents
Local size m (publish_cas target4 timestamp contents flags) =
    IsAligned target4
    × (length contents ≤ size)
    × Agrees size m (target4 / 4) (length contents) contents
Local size m (write_drop target4) = IsAligned target4
Local size m pc = Unit

-- A buffer that is the target, or that a process reads.
abbrev pub IsLive : ℕ → ℕ → (ℕ → Hold) → ℕ → Type 0
IsLive n w hs b = (nibble w 15 ≡ b) ⊎ ((j : ℕ) × (j < n) × (hs j ≡ shared b))

-- Buffer `b` holds the version that was published in it.
abbrev pub Holds : (size : ℕ) → Shm → List ℕ → ℕ → Type 0
Holds size m version b = (length version ≤ size) × Agrees size m b (length version) version

pub record Inv (n size : ℕ) (s : System) : Type 0 where
  pub locked : IsLocked n s.mem.flags (holds s.process)
  pub locals : (i : ℕ) → i < n → Local size s.mem (s.process i).pc
  pub live : (b : ℕ) → IsLive n s.mem.flags (holds s.process) b → Holds size s.mem (s.version b) b
  pub seen : (i b : ℕ) → i < n → holds s.process i ≡ shared b → s.snapshot i ≡ s.version b
