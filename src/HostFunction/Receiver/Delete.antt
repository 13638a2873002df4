-- ===== src/HostFunction/Receiver/Delete.antt =====
-- `delete_host_function_dispatcher` of src/host_function_receiver.c.
use robot_ipc.Common.{
  ℕ, zero, suc, ◌+◌, ◌-◌, ◌*◌, ◌%◌, ◌^◌, ◌≡◌, inl, inr, refl, arith, bit_or, Bool, not, ◌&&◌, List,
  [], ◌∷◌, some, ℤ, pos, negsuc, ◌==◌, if◌then◌else◌, Bool-cases,
}
use robot_ipc.Posix.{Os, M, World, Call, pure, ◌>>=◌, ◌>>◌, invoke, free, close, read, write}
use robot_ipc.Posix.Balance.{is_int, one_if, closes, frees_at, count_of}
use robot_ipc.HostFunction.Receiver.{Entry, Dispatcher}
use robot_ipc.HostFunction.Receiver.Dispatch.{exit_bytes}

-- An `int` as its 32 bits, and from the bytes in which a pipe carries it.
abbrev pub int_bits : ℤ → ℕ
int_bits (pos n) = n % 2 ^ 32
int_bits (negsuc n) = 2 ^ 32 - 1 - n % 2 ^ 32

abbrev pub from_bytes : List ℕ → ℕ
from_bytes [] = 0
from_bytes (byte ∷ bytes) = byte + 256 * from_bytes bytes

-- The condition under which the data of an entry is freed.
abbrev pub is_owned : Entry → Bool
is_owned e = not (e.owns_user_data == 0) && not (is_int e.user_data (pos 0))

-- The loop over the functions from `i` on, with `left` of them to go. `ret` collects what `close`
-- returned, bit by bit.
unfoldable pub delete_entries : Os → Dispatcher → (left i ret : ℕ) → M ℕ
delete_entries os p zero i ret = pure ret
delete_entries os p (suc left) i ret = do
  req ← invoke os (close (p.entries i).req_fd)
  res ← invoke os (close (p.entries i).res_fd)
  let rest =
      delete_entries os p left (i + 1) (bit_or (bit_or ret (int_bits req.ret)) (int_bits res.ret))
  if is_owned (p.entries i) then (do invoke os (free (p.entries i).user_data); rest) else rest

unfoldable pub free_arrays : Os → List ℤ → M (Unit {0})
free_arrays os [] = pure tt
free_arrays os (pointer ∷ pointers) = do invoke os (free pointer); free_arrays os pointers

-- The thread is told to end and answers before anything is closed. The read of its answer may wait for
-- ever; a run goes on from the answer.
unfoldable pub close_own : Os → Dispatcher → M ℕ
close_own os p = do
  invoke os (write p.to_daemon_write exit_bytes)
  answered ← invoke os (read p.from_daemon_read 4)
  epoll ← invoke os (close p.epoll_fd)
  to_read ← invoke os (close p.to_daemon_read)
  to_write ← invoke os (close p.to_daemon_write)
  from_read ← invoke os (close p.from_daemon_read)
  from_write ← invoke os (close p.from_daemon_write)
  let ret = bit_or (from_bytes answered.bytes) (int_bits epoll.ret)
  let ret = bit_or (bit_or ret (int_bits to_read.ret)) (int_bits to_write.ret)
  pure (bit_or (bit_or ret (int_bits from_read.ret)) (int_bits from_write.ret))

unfoldable pub delete_host_function_dispatcher : Os → Dispatcher → M ℕ
delete_host_function_dispatcher os p = do
  ret ← close_own os p
  code ← delete_entries os p p.cnt_func 0 ret
  free_arrays os p.arrays
  invoke os (free p.address)
  pure code

-- How often `fd` is among the descriptors of the functions from `i` on.
abbrev pub entry_fds : ℕ → Dispatcher → (left i : ℕ) → ℕ
entry_fds fd p zero i = 0
entry_fds fd p (suc left) i =
    one_if (is_int (p.entries i).req_fd (pos fd))
    + one_if (is_int (p.entries i).res_fd (pos fd))
    + entry_fds fd p left (i + 1)

-- How often an address is that of data which these functions own.
abbrev pub owned_data : ℤ → Dispatcher → (left i : ℕ) → ℕ
owned_data block p zero i = 0
owned_data block p (suc left) i =
    (if is_owned (p.entries i) then one_if (is_int (p.entries i).user_data block) else 0)
    + owned_data block p left (i + 1)

-- How often `fd` is among the descriptors of the dispatcher itself.
abbrev pub own_fds : ℕ → Dispatcher → ℕ
own_fds fd p =
    one_if (is_int p.epoll_fd (pos fd))
    + one_if (is_int p.to_daemon_read (pos fd))
    + one_if (is_int p.to_daemon_write (pos fd))
    + one_if (is_int p.from_daemon_read (pos fd))
    + one_if (is_int p.from_daemon_write (pos fd))

delete_entries_lem :
    (os : Os) (p : Dispatcher) (fd left i ret : ℕ) (block : ℤ) (h : World)
    → (code : ℕ) × (h' : World) × (delete_entries os p left i ret h ≡ some (code, h'))
      × (closes fd h' ≡ closes fd h + entry_fds fd p left i)
      × (frees_at block h' ≡ frees_at block h + owned_data block p left i)
unfolding delete_entries
delete_entries_lem os p fd zero i ret block h = (ret, h, refl, omega arith, omega arith)
delete_entries_lem os p fd (suc left) i ret block h =
    let e = p.entries i in
    let req = os.answer h (close e.req_fd) in
    let h₁ = (close e.req_fd, req) ∷ h in
    let res = os.answer h₁ (close e.res_fd) in
    let h₂ = (close e.res_fd, res) ∷ h₁ in
    let h₃ = (free e.user_data, os.answer h₂ (free e.user_data)) ∷ h₂ in
    let ret' = bit_or (bit_or ret (int_bits req.ret)) (int_bits res.ret) in
    elim (Bool-cases (is_owned e)) [
      | inl owned ↦
          let (code, h', run, closed, freed) =
            delete_entries_lem os p fd left (i + 1) ret' block h₃ in
          (code, h', rw owned run, omega (arith, closed), rw owned (omega (arith, freed)))
      | inr lent ↦
          let (code, h', run, closed, freed) =
            delete_entries_lem os p fd left (i + 1) ret' block h₂ in
          (code, h', rw lent run, omega (arith, closed), rw lent (omega (arith, freed)))
    ]

free_arrays_lem :
    (os : Os) (fd : ℕ) (block : ℤ) (pointers : List ℤ) (h : World)
    → (h' : World) × (free_arrays os pointers h ≡ some (tt, h'))
      × (closes fd h' ≡ closes fd h)
      × (frees_at block h' ≡ frees_at block h + count_of block pointers)
unfolding free_arrays
free_arrays_lem os fd block [] h = (h, refl, refl, omega arith)
free_arrays_lem os fd block (pointer ∷ pointers) h =
    let h₁ = (free pointer, os.answer h (free pointer)) ∷ h in
    let (h', run, closed, freed) = free_arrays_lem os fd block pointers h₁ in
    (h', run, omega (arith, closed), omega (arith, freed))

abbrev after : Os → Call → World → World
after os c h = (c, os.answer h c) ∷ h

close_own_lem :
    (os : Os) (p : Dispatcher) (fd : ℕ) (block : ℤ) (h : World)
    → (ret : ℕ) × (h' : World) × (close_own os p h ≡ some (ret, h'))
      × (closes fd h' ≡ closes fd h + own_fds fd p)
      × (frees_at block h' ≡ frees_at block h)
unfolding close_own
close_own_lem os p fd block h =
    let h₁ = after os (write p.to_daemon_write exit_bytes) h in
    let h₂ = after os (read p.from_daemon_read 4) h₁ in
    let h₃ = after os (close p.epoll_fd) h₂ in
    let h₄ = after os (close p.to_daemon_read) h₃ in
    let h₅ = after os (close p.to_daemon_write) h₄ in
    let h₆ = after os (close p.from_daemon_read) h₅ in
    (_, after os (close p.from_daemon_write) h₆, refl, omega arith, omega arith)

-- Where every call of the system is answered, the read included that waits for the thread, the
-- deletion returns. By then it has closed each descriptor of the dispatcher and of its functions as
-- often as it is there, and has called `free` for each address as often as it is that of the data that
-- a function owns, of an array or of the dispatcher, and for no other; no other descriptor is closed.
pub delete-releases :
    (os : Os) (p : Dispatcher) (fd : ℕ) (block : ℤ) (h : World)
    → (code : ℕ) × (h' : World) × (delete_host_function_dispatcher os p h ≡ some (code, h'))
      × (closes fd h' ≡ closes fd h + own_fds fd p + entry_fds fd p p.cnt_func 0)
      × (frees_at block h'
          ≡ frees_at block h
            + owned_data block p p.cnt_func 0
            + count_of block p.arrays
            + one_if (is_int p.address block))
unfolding delete_host_function_dispatcher
delete-releases os p fd block h =
    let (ret, h₁, own, own_closed, own_freed) = close_own_lem os p fd block h in
    let (code, h₂, loop, closed, freed) = delete_entries_lem os p fd p.cnt_func 0 ret block h₁ in
    let (h₃, arrays, arrays_closed, arrays_freed) = free_arrays_lem os fd block p.arrays h₂ in
    (
      code,
      after os (free p.address) h₃,
      ground (arith, own, loop, arrays),
      omega (arith, own_closed, closed, arrays_closed),
      omega (arith, own_freed, freed, arrays_freed),
    )
