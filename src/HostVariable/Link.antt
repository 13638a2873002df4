-- ===== src/HostVariable/Link.antt =====
-- `link_host_variable` and `unlink_host_variable` of src/host_variable.c.
pub mod Effects
pub mod Settling
pub mod Linking
pub mod Waiting
use robot_ipc.Common.{
  ℕ, zero, suc, ◌+◌, ◌*◌, Bool, true, false, not, ◌&&◌, List, ℤ, pos, negsuc, is_negative, ◌==◌,
  if◌then◌else◌,
}
use robot_ipc.Word.{u64}
use robot_ipc.Posix.{
  Os, M, pure, ◌>>=◌, ◌>>◌, invoke, Reply, close, shm_create, shm_open, shm_unlink, ftruncate, mmap,
  munmap, sigaction_query, sigaction_install, usleep, atomic_load, atomic_store,
}
use robot_ipc.Posix.Balance.{is_int}
use robot_ipc.HostVariable.Flags.{shm_buffer_cnt, init_flags}
use robot_ipc.HostVariable.Signal.{Signals, set_handler_wrap}

-- Where the fields of `struct _s_host_variable` are: `meta` has 256 bytes and begins with `created`.
abbrev pub created_at : ℕ
created_at = 0

abbrev pub flags_at : ℕ
flags_at = 256

abbrev pub timestamp_at : ℕ → ℕ
timestamp_at i = 264 + 8 * i

abbrev pub data_at : ℕ
data_at = 264 + 8 * shm_buffer_cnt

-- FULL_SIZE, on `size_t`.
abbrev pub full_size : ℕ → ℕ
full_size size = u64 (data_at + size * shm_buffer_cnt)

-- What `link_host_variable` gives: NULL, an address, or nothing yet, where it still waits for the
-- process that created the variable.
pub data Linked : Type 0 where
  null waiting : Linked
  linked : (address : ℤ) → Linked

-- The calls of `_set_handler_wrap`.
unfoldable pub wrap_handler : Os → Signals → M Signals
wrap_handler os s = do
  query ← invoke os sigaction_query
  if is_int query.ret (negsuc 0) then pure (set_handler_wrap true false s) else (do
    install ← invoke os sigaction_install
    pure (set_handler_wrap false (is_int install.ret (negsuc 0)) s))

-- The code after the label FAILED.
unfoldable pub link_variable_failed : Os → List ℕ → (size : ℕ) (fd p : ℤ) → M Linked
link_variable_failed os name size fd p = do
  if is_int fd (negsuc 0) then pure tt else (do invoke os (close fd); pure tt)
  if not (is_int p (negsuc 0)) && not (is_int p (pos 0))
      then (do invoke os (munmap p (full_size size)); pure tt)
      else pure tt
  invoke os (shm_unlink name)
  pure null

-- The stores of the process that created the variable. `left` timestamps from `i` on are to go.
unfoldable pub init_timestamps : Os → ℤ → (left i : ℕ) → M (Unit {0})
init_timestamps os p zero i = pure tt
init_timestamps os p (suc left) i = do
  invoke os (atomic_store p (timestamp_at i) 0)
  init_timestamps os p left (i + 1)

unfoldable pub init_variable : Os → ℤ → M (Unit {0})
unfolding init_timestamps
init_variable os p = do
  invoke os (atomic_store p created_at 0)
  invoke os (atomic_store p flags_at init_flags)
  init_timestamps os p shm_buffer_cnt 0
  invoke os (atomic_store p created_at 1)
  pure tt

-- The loop of the other processes, for at most `polls` rounds: whether `created` was seen.
unfoldable pub await_created : Os → ℤ → (polls : ℕ) → M Bool
await_created os p zero = pure false
await_created os p (suc polls) = do
  created ← invoke os (atomic_load p created_at)
  let again = await_created os p polls
  if is_int created.ret (pos 0) then (do invoke os (usleep 1000); again) else pure true

-- Once the memory is mapped.
unfoldable pub settle : Os → (polls : ℕ) (fd p : ℤ) (is_create : Bool) → M Linked
settle os polls fd p is_create =
    if is_create then (do init_variable os p; invoke os (close fd); pure (linked p)) else (do
      seen ← await_created os p polls
      if seen then (do invoke os (close fd); pure (linked p)) else pure waiting)

unfoldable pub map_variable : Os → List ℕ → (polls size : ℕ) (fd : ℤ) (is_create : Bool) → M Linked
unfolding link_variable_failed settle
map_variable os name polls size fd is_create = do
  sized ← invoke os (ftruncate fd (full_size size))
  if is_int sized.ret (negsuc 0) then link_variable_failed os name size fd (pos 0) else (do
    p ← invoke os (mmap (full_size size) fd)
    if is_int p.ret (negsuc 0)
        then link_variable_failed os name size fd p.ret
        else settle os polls fd p.ret is_create)

unfoldable pub open_variable : Os → List ℕ → (polls size : ℕ) → M Linked
unfolding map_variable
open_variable os name polls size = do
  made ← invoke os (shm_create name)
  if is_negative made.ret
      then (if made.eexist
          then (do
            opened ← invoke os (shm_open name)
            if is_negative opened.ret
                then link_variable_failed os name size opened.ret (pos 0)
                else map_variable os name polls size opened.ret false)
          else link_variable_failed os name size made.ret (pos 0))
      else map_variable os name polls size made.ret true

unfoldable pub link_host_variable : Os → Signals → List ℕ → (polls size : ℕ) → M (Linked × Signals)
unfolding wrap_handler open_variable
link_host_variable os s name polls size = do
  s' ← wrap_handler os s
  result ← open_variable os name polls size
  pure (result, s')

-- `name` is not used, and `shm_unlink` is not called.
unfoldable pub unlink_host_variable : Os → ℤ → List ℕ → (size : ℕ) → M ℤ
unlink_host_variable os p name size = do
  unmapped ← invoke os (munmap p (full_size size))
  pure unmapped.ret
