-- ===== src/HostFunction/Tests.antt =====
-- Systems that answer the calls in the simplest ways, for the tests.
mod Calls
mod Attaches
mod Batch
mod Shutdown
pub mod Pipes
use robot_ipc.Common.{
  ℕ, zero, suc, ◌+◌, ◌-◌, ◌≡◌, ◌≢◌, ◌≤◌, ◌<◌, ◌⊎◌, ◌↔◌, refl, arith, Bool, true, false, List, [],
  ◌∷◌, ◌++◌, Option, none, some, ℤ, pos, negsuc, is_nonzero, if◌then◌else◌,
}
use robot_ipc.Posix.{Call, Reply, Os, World, calloc, malloc, mkfifo, open_fifo, mkdir, read, write}
use robot_ipc.Posix.Balance.{is_int, one_if, opens, closes, allocs, frees}
use robot_ipc.HostFunction.Pipe.{codes, robot_ok, err_pipe_req, err_pipe_close}
use robot_ipc.HostFunction.Caller.{
  Caller, link_host_function, unlink_host_function, call_host_function, get_response_host_function,
}
use robot_ipc.HostFunction.Caller.Link.{
  link-fds, link-blocks, link-sizes, link_refused, owned, handles,
}
use robot_ipc.HostFunction.Caller.Message.{unlink_cases, message-codes}
use robot_ipc.HostFunction.Receiver.{
  Entry, Dispatcher, attach_host_function_ex, attach_host_function,
}
use robot_ipc.HostFunction.Receiver.Attach.{
  attach_ex-fds, attached_fds, attach_ex-returns, attach_ex-appends, attach_ex-restores,
  attach-blocks,
}
use robot_ipc.HostFunction.Receiver.Dispatch.{handle_call, dispatch, exit_bytes, control_token}
use robot_ipc.HostFunction.Receiver.Events.{handle_call_lem, sent, answer_to}

abbrev pub reply : ℤ → Reply
reply ret = record { ret = ret; eexist = false; bytes = []; events = [] }

-- `mkdir`, `mkfifo` and `close` return 0, the memory is at 64, the pipes open as 5, and a read gives
-- two bytes.
abbrev pub works : World → Call → Reply
works h (Call.calloc size) = reply (pos 64)
works h (Call.malloc size) = reply (pos 64)
works h (Call.open_fifo path) = reply (pos 5)
works h (Call.write fd bytes) = reply (pos 2)
works h (Call.read fd count) = record {
  ret = pos 2;
  eexist = false;
  bytes = 3 ∷ 4 ∷ [];
  events = [];
}
works h c = reply (pos 0)

-- The same, but no pipe can be made or opened.
abbrev refuses : World → Call → Reply
refuses h (Call.calloc size) = reply (pos 64)
refuses h (Call.malloc size) = reply (pos 64)
refuses h (Call.mkfifo path) = reply (negsuc 0)
refuses h (Call.open_fifo path) = reply (negsuc 0)
refuses h c = reply (pos 0)

abbrev pub os : Os
os = record { answer = works; pipe_buf = 4096 }

abbrev os_refuses : Os
os_refuses = record { answer = refuses; pipe_buf = 4096 }

abbrev pub name : List ℕ
name = codes "add"

-- The sum of two bytes.
abbrev pub add_bytes : List ℕ → Option (List ℕ)
add_bytes (a ∷ b ∷ []) = some ((a + b) ∷ [])
add_bytes args = none

abbrev pub entry : Entry
entry = record {
  req_fd = pos 5;
  res_fd = pos 6;
  foo = λ args user. add_bytes args;
  user_data = pos 0;
  owns_user_data = 0;
  sz_arg = 2;
  sz_ret = 1;
}

abbrev pub dispatcher : ℕ → Dispatcher
dispatcher cnt = record {
  address = pos 64;
  epoll_fd = pos 9;
  to_daemon_read = pos 10;
  to_daemon_write = pos 11;
  from_daemon_read = pos 12;
  from_daemon_write = pos 13;
  cnt_func = cnt;
  capacity = 2;
  arrays = pos 101 ∷ pos 102 ∷ pos 103 ∷ pos 104 ∷ pos 105 ∷ pos 106 ∷ pos 107 ∷ [];
  entries = λ i. entry;
}

abbrev pub world_of : {A : Type 0} → Option (A × World) → World
world_of none = []
world_of (some (a, h)) = h

abbrev pub result_of : {A : Type 0} → A → Option (A × World) → A
result_of d none = d
result_of d (some (a, h)) = a
