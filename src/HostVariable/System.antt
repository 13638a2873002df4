-- ===== src/HostVariable/System.antt =====
-- Processes that share one variable, interleaved in any order.
use robot_ipc.Common.{
  ℕ, ◌/◌, ◌<◌, ◌≤◌, ◌≡◌, List, [], Option, none, some, ◌==◌, if◌then◌else◌, update, length,
}
use robot_ipc.HostVariable.Flags.{init_flags, acquire_read}
use robot_ipc.HostVariable.Process.{
  Shm, Pc, idle, read_cas, read_copy, release_load, release_cas, write_stamp, write_copy,
  publish_load, publish_check, publish_cas, write_drop, Process, begin_read, begin_write, advance,
}
use robot_ipc.HostVariable.Lock.{Hold, free, shared, exclusive}

-- What a process holds at a point of the two functions.
abbrev pub hold_of : Pc → Hold
hold_of (read_copy target k left buf) = shared target
hold_of (release_load target buf) = shared target
hold_of (release_cas target buf flags) = shared target
hold_of (write_stamp target4 timestamp contents) = exclusive (target4 / 4)
hold_of (write_copy target4 timestamp contents k rest) = exclusive (target4 / 4)
hold_of (publish_load target4 timestamp contents) = exclusive (target4 / 4)
hold_of (publish_check target4 timestamp contents flags) = exclusive (target4 / 4)
hold_of (publish_cas target4 timestamp contents flags) = exclusive (target4 / 4)
hold_of (write_drop target4) = exclusive (target4 / 4)
hold_of pc = free

-- Beside the shared memory and the processes two records of the past, which no code reads: what
-- was last published in each buffer, and what the target held when each process acquired it.
pub record System : Type 0 where
  pub mem : Shm
  pub process : ℕ → Process
  pub version : ℕ → List ℕ
  pub snapshot : ℕ → List ℕ

-- The holds of the processes.
abbrev pub holds : (ℕ → Process) → ℕ → Hold
holds ps i = hold_of (ps i).pc

-- A publication is the compare-exchange that makes a buffer the target.
abbrev pub note_publish : Shm → Pc → (ℕ → List ℕ) → ℕ → List ℕ
note_publish m (publish_cas target4 timestamp contents flags) version =
    if m.flags == flags then update version (target4 / 4) contents else version
note_publish m pc version = version

abbrev pub acquired : Option (ℕ × ℕ) → (ℕ → List ℕ) → List ℕ → List ℕ
acquired none version old = old
acquired (some (target, new_flags)) version old = version target

-- A reader sees the version of the target at its compare-exchange.
abbrev pub note_acquire : Shm → Pc → (ℕ → List ℕ) → List ℕ → List ℕ
note_acquire m (read_cas op_size flags) version old =
    if m.flags == flags then acquired (acquire_read flags) version old else old
note_acquire m pc version old = old

-- Process `i` makes its next access.
abbrev pub run_step : (size : ℕ) → ℕ → System → System
run_step size i s =
    let p = s.process i in
    let next = advance size s.mem p.should_wait p.pc in
    record {
      mem = next.mem;
      process = update s.process i next.process;
      version = note_publish s.mem p.pc s.version;
      snapshot = update s.snapshot i (note_acquire s.mem p.pc s.version (s.snapshot i));
    }

-- Process `i` calls a function.
abbrev pub call : ℕ → Process → System → System
call i p s = record s { process = update s.process i p }

-- The processes `0 … n - 1` at a variable of `size` bytes. A call moves at most `size` bytes, and
-- starts where the process holds nothing; a write has read any value from the clock.
pub data Step (n size : ℕ) (s : System) : System → Type 0 where
  move : (i : ℕ) → i < n → Step n size s (run_step size i s)
  read :
      (i op_size : ℕ)
      → i < n
      → hold_of (s.process i).pc ≡ free
      → op_size ≤ size
      → Step n size s (call i (begin_read op_size) s)
  write :
      (i timestamp : ℕ) (contents : List ℕ)
      → i < n
      → hold_of (s.process i).pc ≡ free
      → length contents ≤ size
      → Step n size s (call i (begin_write timestamp contents) s)

-- A new variable, as `link_host_variable` leaves it, over any bytes.
abbrev pub new_shm : (ℕ → ℕ) → Shm
new_shm bytes = record { flags = init_flags; timestamp = λ i. 0; bytes = bytes }

abbrev pub init : (ℕ → ℕ) → System
init bytes = record {
  mem = new_shm bytes;
  process = λ i. record { pc = idle; should_wait = 0 };
  version = λ b. [];
  snapshot = λ i. [];
}

pub data Reach (n size : ℕ) (bytes : ℕ → ℕ) : System → Type 0 where
  start : Reach n size bytes (init bytes)
  later : {s t : System} → Reach n size bytes s → Step n size s t → Reach n size bytes t
