-- ===== src/HostFunction/Receiver/Dispatch.antt =====
-- `__host_function_dispatcher`: the thread that waits for events and runs the functions.
use robot_ipc.Common.{
  ℕ, zero, suc, ◌-◌, Bool, true, false, ◌&&◌, List, [], ◌∷◌, Option, none, some, ℤ, negsuc, ◌==◌,
  length, if◌then◌else◌, take,
}
use robot_ipc.Word.{u64_mod}
use robot_ipc.Posix.{Os, M, pure, fault, ◌>>=◌, ◌>>◌, invoke, malloc, free, write, read, epoll_wait}
use robot_ipc.Posix.Balance.{is_int}
use robot_ipc.HostFunction.Caller.{is_short}
use robot_ipc.HostFunction.Receiver.{Entry, Dispatcher}

-- MAX_EPOLL_EVENTS of src/config.h.
abbrev pub max_epoll_events : ℕ
max_epoll_events = 16

-- `(uint64_t)(-1)`, the token of the control pipe.
abbrev pub control_token : ℕ
control_token = u64_mod - 1

-- An `int` in a pipe is its four bytes: _DISPATCHER_EXIT, and 0.
abbrev pub exit_bytes : List ℕ
exit_bytes = 255 ∷ 255 ∷ 255 ∷ 255 ∷ []

abbrev pub zero_bytes : List ℕ
zero_bytes = 0 ∷ 0 ∷ 0 ∷ 0 ∷ []

abbrev pub is_exit : List ℕ → Bool
is_exit (a ∷ b ∷ c ∷ d ∷ []) = a == 255 && b == 255 && c == 255 && d == 255
is_exit tmp = false

-- Any other message is sent back as it came. A read that does not fill `tmp` leaves bytes in it that
-- nobody has written, and what the code does with them is undefined. The result is whether the
-- thread should end.
unfoldable pub handle_control : Os → Dispatcher → M Bool
handle_control os p = do
  got ← invoke os (read p.to_daemon_read 4)
  let exit = is_exit got.bytes
  if length got.bytes == 4
      then (do
        invoke os (write p.from_daemon_write (if exit then zero_bytes else got.bytes))
        pure exit)
      else fault

-- The end of the body for a function: the response, if there is one, and the release of the buffer.
unfoldable pub respond : Os → Entry → (arg_buffer : ℤ) → Option (List ℕ) → M (Unit {0})
respond os e arg_buffer none = do invoke os (free arg_buffer); pure tt
respond os e arg_buffer (some ret) =
    if e.sz_ret == 0
    then (do invoke os (free arg_buffer); pure tt)
    else (do invoke os (write e.res_fd (take e.sz_ret ret)); invoke os (free arg_buffer); pure tt)

unfoldable pub handle_call : Os → Entry → M (Unit {0})
handle_call os e = do
  arg_buffer ← invoke os (malloc e.sz_arg)
  got ← invoke os (read e.req_fd e.sz_arg)
  if is_short got.ret e.sz_arg
      then (do invoke os (free arg_buffer.ret); pure tt)
      else respond os e arg_buffer.ret (e.foo got.bytes e.user_data)

-- One event; without EPOLLIN it is passed over. Once the message to exit has been answered, the
-- deletion that waited for the answer closes and frees everything, while nothing holds it back: any
-- further access to `p` is to memory that may be free, which is undefined.
unfoldable pub handle_event : Os → Dispatcher → Bool × ℕ → (should_exit : Bool) → M Bool
handle_event os p (readable, id) should_exit =
    if readable
    then (if should_exit
        then fault
        else if id == control_token
        then handle_control os p
        else (do handle_call os (p.entries id); pure false))
    else pure should_exit

-- The loop goes through the whole batch, also after the message to exit.
unfoldable pub handle_events : Os → Dispatcher → List (Bool × ℕ) → (should_exit : Bool) → M Bool
handle_events os p [] should_exit = pure should_exit
handle_events os p (event ∷ events) should_exit =
    handle_event os p event should_exit >>= λ exit. handle_events os p events exit

-- The loop, for at most `rounds` rounds; the result is whether it has ended.
unfoldable pub dispatch : Os → Dispatcher → (rounds : ℕ) → M Bool
dispatch os p zero = pure false
dispatch os p (suc rounds) = do
  ready ← invoke os (epoll_wait p.epoll_fd max_epoll_events)
  let again = dispatch os p rounds
  if is_int ready.ret (negsuc 0)
      then again
      else (do exit ← handle_events os p ready.events false; if exit then pure true else again)
