-- ===== src/HostFunction/Receiver.antt =====
-- src/host_function_receiver.c: the dispatcher that runs the functions, and how functions are
-- attached to it.
pub mod Attach
pub mod Legacy
pub mod Entries
pub mod Dispatch
pub mod Events
pub mod Create
pub mod Delete
use robot_ipc.Common.{
  ℕ, zero, suc, ◌+◌, ◌-◌, ◌≡◌, Bool, true, false, not, ◌&&◌, ◌||◌, List, [], Option, none, some, ℤ,
  pos, negsuc, is_negative, is_nonzero, ltb, ◌==◌, if◌then◌else◌, update,
}
use robot_ipc.Posix.{
  Os, M, pure, fault, ◌>>=◌, ◌>>◌, invoke, Reply, malloc, free, mkdir, mkfifo, open_fifo, close,
  epoll_ctl_add, pthread_detach,
}
use robot_ipc.Posix.Balance.{is_int}
use robot_ipc.HostFunction.Pipe.{codes, pipe_name_prefix, format_path}

-- `host_function_ex`: the bytes that it returns a pointer to, or `none` for NULL.
abbrev pub HostFunctionEx : Type 0
HostFunctionEx = (args : List ℕ) (user_data : ℤ) → Option (List ℕ)

-- One index into the arrays of a dispatcher.
pub record Entry : Type 0 where
  pub req_fd : ℤ
  pub res_fd : ℤ
  pub foo : HostFunctionEx
  pub user_data : ℤ
  pub owns_user_data : ℕ
  pub sz_arg : ℕ
  pub sz_ret : ℕ

-- `struct _s_host_function_dispatcher`: the arrays have room for `capacity` entries.
pub record Dispatcher : Type 0 where
  pub address : ℤ
  pub epoll_fd : ℤ
  pub to_daemon_read : ℤ
  pub to_daemon_write : ℤ
  pub from_daemon_read : ℤ
  pub from_daemon_write : ℤ
  pub cnt_func : ℕ
  pub capacity : ℕ
  -- where the seven arrays are, in the order of the fields
  pub arrays : List ℤ
  pub entries : ℕ → Entry

-- The receiver's own `_try_to_open_pipe`: a refused pipe is -1.
unfoldable pub try_to_open_pipe : Os → List ℕ → M ℤ
try_to_open_pipe os path = do
  made ← invoke os (mkfifo path)
  if is_int made.ret (negsuc 0) && not made.eexist
      then pure (negsuc 0)
      else (do opened ← invoke os (open_fifo path); pure opened.ret)

abbrev pub set_entry : Dispatcher → ℕ → Entry → Dispatcher
set_entry p id e = record p { entries = update p.entries id e }

-- The ways out of `attach_host_function_ex`, from the last label to the first.
abbrev attach_failed : Dispatcher → ℤ → M (ℤ × Dispatcher)
attach_failed p err_code = pure (err_code, record p { cnt_func = p.cnt_func - 1 })

listen : Os → Dispatcher → ℕ → M (ℤ × Dispatcher)
listen os p id = do
  added ← invoke os (epoll_ctl_add p.epoll_fd (p.entries id).req_fd id)
  if is_int added.ret (negsuc 0)
      then (do
        invoke os (close (p.entries id).res_fd)
        invoke os (close (p.entries id).req_fd)
        attach_failed p (negsuc 2))
      else pure (pos 0, p)

open_response : Os → List ℕ → Dispatcher → ℕ → M (ℤ × Dispatcher)
unfolding listen
open_response os name p id = do
  path ← format_path name (codes "_res")
  res_fd ← try_to_open_pipe os path
  let p' = set_entry p id (record (p.entries id) { res_fd = res_fd })
  if is_negative res_fd
      then (do invoke os (close (p.entries id).req_fd); attach_failed p' (negsuc 1))
      else listen os p' id

open_request : Os → List ℕ → Dispatcher → ℕ → M (ℤ × Dispatcher)
unfolding open_response
open_request os name p id = do
  path ← format_path name (codes "_req")
  req_fd ← try_to_open_pipe os path
  let p' = set_entry p id (record (p.entries id) { req_fd = req_fd })
  if is_negative req_fd then attach_failed p' (negsuc 1) else open_response os name p' id

pub open_pipes : Os → List ℕ → Dispatcher → ℕ → M (ℤ × Dispatcher)
unfolding open_request
open_pipes os name p id = do
  made ← invoke os (mkdir pipe_name_prefix)
  if is_nonzero made.ret && not made.eexist
      then attach_failed p (negsuc 0)
      else open_request os name p id

-- The count goes up before the arrays are written, and no one compares it with their size: a write
-- at an index from `capacity` on is undefined.
unfoldable pub attach_host_function_ex :
    Os
    → Dispatcher
    → List ℕ
    → HostFunctionEx
    → (user_data : ℤ) (sz_arg sz_ret : ℕ) → M (ℤ × Dispatcher)
unfolding open_pipes
attach_host_function_ex os p name foo user_data sz_arg sz_ret =
    if ltb os.pipe_buf sz_arg || ltb os.pipe_buf sz_ret
    then pure (negsuc 4, p)
    else if ltb p.cnt_func p.capacity
    then (let id = p.cnt_func in
        let e = record (p.entries id) {
          foo = foo;
          user_data = user_data;
          owns_user_data = 0;
          sz_arg = sz_arg;
          sz_ret = sz_ret;
        } in
        open_pipes os name (set_entry (record p { cnt_func = id + 1 }) id e) id)
    else fault

-- `_legacy_host_function_adapter` over the context that holds `foo`.
abbrev pub adapter : (List ℕ → Option (List ℕ)) → HostFunctionEx
adapter foo args user_data = foo args

abbrev context_size : ℕ
context_size = 8

unfoldable pub attach_host_function :
    Os → Dispatcher → List ℕ → (List ℕ → Option (List ℕ)) → (sz_arg sz_ret : ℕ) → M (ℤ × Dispatcher)
attach_host_function os p name foo sz_arg sz_ret = do
  ctx ← invoke os (malloc context_size)
  if is_int ctx.ret (pos 0) then pure (negsuc 3, p) else (do
    (ret, p') ← attach_host_function_ex os p name (adapter foo) ctx.ret sz_arg sz_ret
    if is_nonzero ret
        then (do invoke os (free ctx.ret); pure (ret, p'))
        else (let id = p'.cnt_func - 1 in
            pure (pos 0, set_entry p' id (record (p'.entries id) { owns_user_data = 1 }))))

unfoldable pub start_host_function_dispatcher : Os → Dispatcher → M ℤ
start_host_function_dispatcher os p = do detached ← invoke os pthread_detach; pure detached.ret
