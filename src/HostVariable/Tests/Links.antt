-- ===== src/HostVariable/Tests/Links.antt =====
-- The linking of a variable that another process has created and not yet set up, and uses of it.
use robot_ipc.Common.{
  ◌<◌, ◌≡◌, ◌≢◌, ◌↔◌, arith, Bool, true, false, [], ◌∷◌, some, none, ℤ, pos, negsuc, ltb,
  if◌then◌else◌,
}
use robot_ipc.Word.{nibble, u64_mod}
use robot_ipc.Posix.{Os, World, Call, Reply}
use robot_ipc.HostVariable.Flags.{acquire_read}
use robot_ipc.HostVariable.Timestamp.{
  Timespec, IsBefore, get_compressed_timestamp, compressed_order,
}
use robot_ipc.HostVariable.Process.{Shm, to, begin_read, begin_write, returned}
use robot_ipc.HostVariable.System.{new_shm}
use robot_ipc.HostVariable.Alone.{run}
use robot_ipc.HostVariable.Alone.RoundTrip.{IsQuiet, new_shm-IsQuiet, write_then_read}
use robot_ipc.HostVariable.Link.{Linked, waiting, open_variable}
use robot_ipc.HostVariable.Link.Waiting.{sleeps, open_variable_finishes}
use robot_ipc.HostVariable.Progress.{read_never_full, never_refused}
use robot_ipc.HostVariable.Tests.{reading, answered, loaded, read_returns}

abbrev reply : ℤ → Bool → Reply
reply ret eexist = record { ret = ret; eexist = eexist; bytes = []; events = [] }

-- The object exists, and `created` is seen after two sleeps.
abbrev joins : World → Call → Reply
joins h (Call.shm_create name) = reply (negsuc 0) true
joins h (Call.shm_open name) = reply (pos 3) false
joins h (Call.mmap size fd) = reply (pos 4096) false
joins h (Call.atomic_load p offset) = reply (pos (if ltb (sleeps h) 2 then 0 else 1)) false
joins h c = reply (pos 0) false

abbrev os : Os
os = record { answer = joins; pipe_buf = 4096 }

open_variable_finishes_example :
    (result : Linked) × (h' : World) × (open_variable os (1 ∷ []) 3 8 [] ≡ some (result, h'))
    × (result ≢ waiting)
open_variable_finishes_example =
    open_variable_finishes os (1 ∷ []) 2 3 8 [] (λ w p slept. ground (arith, slept)) (omega arith)

-- One hour and an instant, and two hours.
abbrev early : Timespec
early = record { tv_sec = 3600; tv_nsec = 999999999 }

abbrev late : Timespec
late = record { tv_sec = 7200; tv_nsec = 0 }

compressed_order_example :
    (IsBefore early late ↔ (get_compressed_timestamp early < get_compressed_timestamp late))
    × (get_compressed_timestamp early < u64_mod)
compressed_order_example =
    compressed_order early late (record { seconds = omega arith; below_second = omega arith })
      (record { seconds = omega arith; below_second = omega arith })

abbrev fresh : Shm
fresh = new_shm (λ a. 0)

-- The target of a new variable is 0, and its timestamps are.
target_stamp : fresh.timestamp (nibble fresh.flags 15) < 7
target_stamp = omega arith

write_then_read_example :
    (m' m'' : Shm) × (run 4 9 (record { mem = fresh; process = begin_write 7 (10 ∷ 20 ∷ []) })
      ≡ to m' 0 (returned (pos 0) []))
    × (run 4 7 (record { mem = m'; process = begin_read 2 })
        ≡ to m'' 0 (returned (pos 0) (10 ∷ 20 ∷ [])))
    × IsQuiet m'
    × IsQuiet m''
    × (m''.timestamp (nibble m''.flags 15) ≡ 7)
write_then_read_example =
    write_then_read 4 7 (10 ∷ 20 ∷ []) fresh (new_shm-IsQuiet (λ a. 0)) target_stamp

read_never_full_example : acquire_read 0x1FFFFFFFFFFF0000 ≢ none
read_never_full_example =
    read_never_full reading.reach (omega arith) 1 3 0x1FFFFFFFFFFF0000 (omega arith) loaded

never_refused_example : pos 0 ≢ negsuc 0
never_refused_example =
    never_refused answered.reach (omega arith) 1 (pos 0) (10 ∷ 20 ∷ 30 ∷ []) (omega arith)
      read_returns
