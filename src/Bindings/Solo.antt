-- ===== src/Bindings/Solo.antt =====
-- The operations of a variable that only one process uses, and that is not there before: its reads
-- and writes are those of `Alone`. The link stands for one that succeeds and makes the variable, by
-- any name; the link of src/host_variable.c, with its failures, is in HostVariable/Link.antt.
use robot_ipc.Common.{
  ℕ, suc, subst, ◌-◌, ◌+◌, ◌<◌, ◌≤◌, ◌≡◌, refl, ◌∙◌, ap, arith, true, List, ◌++◌, Option, none,
  some, ℤ, pos, length, take, drop, length-take, length-append,
}
use robot_ipc.Word.{nibble}
use robot_ipc.HostVariable.Process.{Shm, Pc, returned, Next, begin_read, begin_write}
use robot_ipc.HostVariable.System.{new_shm}
use robot_ipc.HostVariable.Alone.{run}
use robot_ipc.HostVariable.Alone.RoundTrip.{
  IsQuiet, write_then_read, write_then_read_more, new_shm-IsQuiet,
}
use robot_ipc.Bindings.{VariableOps, ReadsMore, VariableLaws}

-- The shared memory and the last time that was read from the clock.
pub record Session : Type 0 where
  pub mem : Shm
  pub now : ℕ

abbrev pub outcome : Pc → Option (ℤ × List ℕ)
outcome (returned code buf) = some (code, buf)
outcome pc = none

module _ (tick : ℕ → ℕ) where
  -- What a write of the `op_size` first bytes gives after its accesses.
  abbrev wrote : ℕ → Next → Option (ℤ × Session)
  wrote now s = elim (outcome s.process.pc) [
    | none ↦ none
    | some (code, buf) ↦ some (code, record { mem = s.mem; now = now })
  ]

  -- The bytes of the buffer behind those that were read are left alone.
  abbrev was_read : (now op_size : ℕ) (buf : List ℕ) → Next → Option ((ℤ × List ℕ) × Session)
  was_read now op_size buf s = elim (outcome s.process.pc) [
    | none ↦ none
    | some (code, bytes) ↦
        some ((code, bytes ++ drop (length bytes) buf), record { mem = s.mem; now = now })
  ]

  abbrev pub solo : VariableOps Session
  solo = record {
    link = λ name size s. some (true, record s { mem = new_shm s.mem.bytes });
    unlink = λ name size s. some (pos 0, s);
    write = λ contents size op_size s.
        let front = take op_size contents in
        let now = tick s.now in
        wrote now (
          run size (3 + (suc (length front) + 3))
            (record { mem = s.mem; process = begin_write now front }));
    read = λ buf size op_size s.
        was_read s.now op_size buf
          (run size (2 + (suc op_size + 2)) (record { mem = s.mem; process = begin_read op_size }));
  }

abbrev pub IsReady : Session → Type 0
IsReady s = IsQuiet s.mem × (s.mem.timestamp (nibble s.mem.flags 15) ≤ s.now)

solo_reads_more :
    (tick : ℕ → ℕ)
    → ((t : ℕ) → t < tick t)
    → (size : ℕ) (s : Session) (contents buf : List ℕ) (op_size more : ℕ) → IsReady s
    → op_size ≤ length contents
    → ReadsMore (solo tick) size s contents buf op_size (op_size + more) more IsReady
solo_reads_more tick later size s contents buf op_size more ready whole =
    let now = tick s.now in
    let front = take op_size contents in
    let long : length front ≡ op_size = length-take op_size contents whole in
    let (m', m'', rest, count, wrote_run, read_run, q', q'', stamp) =
      write_then_read_more size now front s.mem more ready.0
        (omega (arith, ready.1, later s.now)) in
    let all_read : length (front ++ rest) ≡ op_size + more =
      omega (arith, length-append front rest, long, count) in
    (
      record { mem = m'; now = now },
      record { mem = m''; now = now },
      rest,
      count,
      ap (wrote tick now) wrote_run,
      ap (was_read tick now (op_size + more) buf) (rw long at read_run)
          ∙ ap
              (λ (k : ℕ).
                some ((pos 0, front ++ rest ++ drop k buf), record { mem = m''; now = now }))
              all_read,
      (q'', omega (arith, stamp)),
    )

-- Where the clock goes on between two calls, these operations keep the laws that the classes rely
-- on.
pub solo-VariableLaws :
    (tick : ℕ → ℕ) → ((t : ℕ) → t < tick t) → (size : ℕ) → VariableLaws (solo tick) size IsReady
solo-VariableLaws tick later size = record {
  link-ready = λ name s.
      (record s { mem = new_shm s.mem.bytes }, refl, (new_shm-IsQuiet s.mem.bytes, omega arith));
  write-read = λ s contents buf op_size ready fits whole.
      let now = tick s.now in
      let front = take op_size contents in
      let long : length front ≡ op_size = length-take op_size contents whole in
      let (m', m'', wrote_run, read_run, q', q'', stamp) =
        write_then_read size now front s.mem ready.0 (omega (arith, ready.1, later s.now)) in
      (
        record { mem = m'; now = now },
        record { mem = m''; now = now },
        ap (wrote tick now) wrote_run,
        ap (was_read tick now op_size buf) (rw long at read_run)
            ∙ ap (λ (k : ℕ). some ((pos 0, front ++ drop k buf), record { mem = m''; now = now }))
                long,
        (q'', omega (arith, stamp)),
      );
  write-read_more = λ s contents buf op_size total ready more fits whole.
      let rest = total - op_size in
      let sum : op_size + rest ≡ total = omega (arith, more) in
      subst (λ t. ReadsMore (solo tick) size s contents buf op_size t rest IsReady) sum
        (solo_reads_more tick later size s contents buf op_size rest ready whole);
}
