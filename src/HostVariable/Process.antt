-- ===== src/HostVariable/Process.antt =====
-- `read_host_variable` and `write_host_variable` of src/host_variable.c, one shared access at a
-- time. A process stands at a point of one of the two functions, with its live local variables;
-- `advance` makes its next access to the shared memory.
use robot_ipc.Common.{
  ℕ, zero, suc, ◌+◌, ◌*◌, List, [], ◌∷◌, ◌++◌, Option, none, some, ℤ, pos, negsuc, ◌==◌, leb,
  if◌then◌else◌, update,
}
use robot_ipc.Word.{◌>>>◌}
use robot_ipc.HostVariable.Flags.{target_of, acquire_read, release_read, claim, publish, drop_claim}

-- The fields of `struct _s_host_variable` that the two functions share; `bytes` is `data`.
pub record Shm : Type 0 where
  pub flags : ℕ
  pub timestamp : ℕ → ℕ
  pub bytes : ℕ → ℕ

pub data Pc : Type 0 where
  idle : Pc
  -- `__acquire_read_lock`: before the load, and before the compare-exchange of the loop
  read_load : (op_size : ℕ) → Pc
  read_cas : (op_size flags : ℕ) → Pc
  -- `memcpy` of `read_host_variable`, with `k` bytes copied and `left` to go
  read_copy : (target k left : ℕ) (buf : List ℕ) → Pc
  -- `__release_read_lock`
  release_load : (target : ℕ) (buf : List ℕ) → Pc
  release_cas : (target : ℕ) (buf : List ℕ) (flags : ℕ) → Pc
  -- the first loop of `write_host_variable`
  write_load : (timestamp : ℕ) (contents : List ℕ) → Pc
  write_cas : (timestamp : ℕ) (contents : List ℕ) (flags : ℕ) → Pc
  -- the store of the timestamp, and `memcpy` with `k` bytes copied and `rest` to go
  write_stamp : (target4 timestamp : ℕ) (contents : List ℕ) → Pc
  write_copy : (target4 timestamp : ℕ) (contents : List ℕ) (k : ℕ) (rest : List ℕ) → Pc
  -- the last loop: before its load, its comparison of timestamps and its compare-exchange
  publish_load : (target4 timestamp : ℕ) (contents : List ℕ) → Pc
  publish_check : (target4 timestamp : ℕ) (contents : List ℕ) (flags : ℕ) → Pc
  publish_cas : (target4 timestamp : ℕ) (contents : List ℕ) (flags : ℕ) → Pc
  -- before the `atomic_fetch_and` of a write that is out of date
  write_drop : (target4 : ℕ) → Pc
  -- after the return, with what was read
  returned : (code : ℤ) (buf : List ℕ) → Pc

-- A process with its `_host_variable_should_wait`.
pub record Process : Type 0 where
  pub pc : Pc
  pub should_wait : ℕ

pub record Next : Type 0 where
  pub mem : Shm
  pub process : Process

abbrev pub to : Shm → ℕ → Pc → Next
to m wait pc = record { mem = m; process = record { pc = pc; should_wait = wait } }

-- The entry of `read_host_variable`, and that of `write_host_variable` once the clock is read.
abbrev pub begin_read : (op_size : ℕ) → Process
begin_read op_size = record { pc = read_load op_size; should_wait = 1 }

abbrev pub begin_write : (timestamp : ℕ) (contents : List ℕ) → Process
begin_write timestamp contents = record { pc = write_load timestamp contents; should_wait = 2 }

-- The rest of the loop's body after `new_flags` is computed. A failed compare-exchange loads the
-- flags anew.
abbrev pub attempt_read : Shm → ℕ → ℕ → ℕ → Option (ℕ × ℕ) → Next
attempt_read m wait op_size flags none = to m wait (returned (negsuc 0) [])
attempt_read m wait op_size flags (some (target, new_flags)) =
    if m.flags == flags
    then to (record m { flags = new_flags }) wait (read_copy target 0 op_size [])
    else to m wait (read_cas op_size m.flags)

abbrev pub attempt_claim : Shm → ℕ → ℕ → List ℕ → ℕ → Option (ℕ × ℕ) → Next
attempt_claim m wait timestamp contents flags none = to m wait (returned (negsuc 0) [])
attempt_claim m wait timestamp contents flags (some (target4, new_flags)) =
    if m.flags == flags
    then to (record m { flags = new_flags }) wait (write_stamp target4 timestamp contents)
    else to m wait (write_cas timestamp contents m.flags)

-- The next access of a process at a variable of `size` bytes.
unfoldable pub advance : (size : ℕ) → Shm → ℕ → Pc → Next
advance size m wait idle = to m wait idle
advance size m wait (read_load op_size) = to m wait (read_cas op_size m.flags)
advance size m wait (read_cas op_size flags) =
    attempt_read m wait op_size flags (acquire_read flags)
advance size m wait (read_copy target k zero buf) = to m 0 (release_load target buf)
advance size m wait (read_copy target k (suc left) buf) =
    to m wait (read_copy target (k + 1) left (buf ++ m.bytes (target * size + k) ∷ []))
advance size m wait (release_load target buf) = to m wait (release_cas target buf m.flags)
advance size m wait (release_cas target buf flags) =
    if m.flags == flags
    then to (record m { flags = release_read target flags }) wait (returned (pos 0) buf)
    else to m wait (release_cas target buf m.flags)
advance size m wait (write_load timestamp contents) =
    to m wait (write_cas timestamp contents m.flags)
advance size m wait (write_cas timestamp contents flags) =
    attempt_claim m wait timestamp contents flags (claim flags)
advance size m wait (write_stamp target4 timestamp contents) =
    to (record m { timestamp = update m.timestamp (target4 >>> 2) timestamp }) wait
      (write_copy target4 timestamp contents 0 contents)
advance size m wait (write_copy target4 timestamp contents k []) =
    to m wait (publish_load target4 timestamp contents)
advance size m wait (write_copy target4 timestamp contents k (byte ∷ rest)) =
    to (record m { bytes = update m.bytes ((target4 >>> 2) * size + k) byte }) wait
      (write_copy target4 timestamp contents (k + 1) rest)
advance size m wait (publish_load target4 timestamp contents) =
    to m wait (publish_check target4 timestamp contents m.flags)
advance size m wait (publish_check target4 timestamp contents flags) =
    if leb timestamp (m.timestamp (target_of flags))
    then to m wait (write_drop target4)
    else to m wait (publish_cas target4 timestamp contents flags)
advance size m wait (publish_cas target4 timestamp contents flags) =
    if m.flags == flags
    then to (record m { flags = publish target4 flags }) 0 (returned (pos 0) [])
    else to m wait (publish_check target4 timestamp contents m.flags)
advance size m wait (write_drop target4) =
    to (record m { flags = drop_claim target4 m.flags }) wait (returned (pos 1) [])
advance size m wait (returned code buf) = to m wait (returned code buf)
