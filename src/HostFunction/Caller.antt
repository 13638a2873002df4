-- ===== src/HostFunction/Caller.antt =====
-- src/host_function_caller.c: the side that calls.
pub mod Link
pub mod Message
use robot_ipc.Common.{
  ℕ, ◌+◌, ◌≡◌, Bool, true, false, not, ◌&&◌, ◌||◌, List, Option, none, some, ℤ, pos, negsuc,
  is_negative, is_nonzero, ltb, if◌then◌else◌, length, ◌==◌, [],
}
use robot_ipc.Posix.{
  Os, M, pure, ◌>>=◌, ◌>>◌, invoke, Reply, calloc, free, mkdir, mkfifo, open_fifo, close, write,
  read,
}
use robot_ipc.Posix.Balance.{is_int}
use robot_ipc.HostFunction.Pipe.{
  codes, pipe_name_prefix, format_path, robot_ok, err_pipe_req, err_pipe_close,
}

-- `struct _s_host_function_caller`, with its own address.
pub record Caller : Type 0 where
  pub address : ℤ
  pub req_fd : ℤ
  pub res_fd : ℤ
  pub sz_arg : ℕ
  pub sz_ret : ℕ

-- sizeof(struct _s_host_function_caller): two `int` and two `size_t`.
abbrev caller_size : ℕ
caller_size = 24

-- `mkfifo` is asked first; only EEXIST lets it fail.
unfoldable pub try_to_open_pipe : Os → List ℕ → M ℤ
try_to_open_pipe os path = do
  made ← invoke os (mkfifo path)
  if is_int made.ret (negsuc 0) && not made.eexist
      then pure (pos err_pipe_req)
      else (do opened ← invoke os (open_fifo path); pure opened.ret)

-- The code after the label FAILED.
unfoldable pub link_failed : Os → Caller → M (Option Caller)
link_failed os p = do
  if is_negative p.req_fd then pure tt else (do invoke os (close p.req_fd); pure tt)
  if is_negative p.res_fd then pure tt else (do invoke os (close p.res_fd); pure tt)
  invoke os (free p.address)
  pure none

unfoldable pub connect_response : Os → List ℕ → Caller → M (Option Caller)
unfolding try_to_open_pipe link_failed
connect_response os name p = do
  path ← format_path name (codes "_res")
  res_fd ← try_to_open_pipe os path
  if is_negative res_fd
      then link_failed os (record p { res_fd = res_fd })
      else pure (some (record p { res_fd = res_fd }))

unfoldable pub connect_request : Os → List ℕ → Caller → M (Option Caller)
unfolding connect_response
connect_request os name p = do
  path ← format_path name (codes "_req")
  req_fd ← try_to_open_pipe os path
  if is_negative req_fd
      then link_failed os (record p { req_fd = req_fd })
      else connect_response os name (record p { req_fd = req_fd })

unfoldable pub connect : Os → List ℕ → Caller → M (Option Caller)
unfolding connect_request
connect os name p = do
  made ← invoke os (mkdir pipe_name_prefix)
  if is_nonzero made.ret && not made.eexist then link_failed os p else connect_request os name p

unfoldable pub link_host_function : Os → List ℕ → (sz_arg sz_ret : ℕ) → M (Option Caller)
unfolding connect
link_host_function os name sz_arg sz_ret = do
  p ← invoke os (calloc caller_size)
  if is_int p.ret (pos 0)
      then pure none
      else if ltb os.pipe_buf sz_arg || ltb os.pipe_buf sz_ret
      then (do invoke os (free p.ret); pure none)
      else connect os name (record {
        address = p.ret;
        req_fd = negsuc 0;
        res_fd = negsuc 0;
        sz_arg = sz_arg;
        sz_ret = sz_ret;
      })

unfoldable pub unlink_host_function : Os → Caller → M ℕ
unlink_host_function os p = do
  first ← invoke os (close p.req_fd)
  if is_nonzero first.ret then pure err_pipe_close else (do
    second ← invoke os (close p.res_fd)
    if is_nonzero second.ret
        then pure err_pipe_close
        else (do invoke os (free p.address); pure robot_ok))

-- `written < 0 || (size_t)written != size`.
abbrev pub is_short : ℤ → ℕ → Bool
is_short moved size = is_negative moved || not (is_int moved (pos size))

-- `arg` are the `sz_arg` bytes behind the pointer.
unfoldable pub call_host_function : Os → Caller → List ℕ → M ℤ
call_host_function os p arg = do
  written ← invoke os (write p.req_fd arg)
  pure (if is_short written.ret p.sz_arg then negsuc 0 else pos 0)

-- The result and what was read into the caller's buffer.
unfoldable pub get_response_host_function : Os → Caller → M (ℤ × List ℕ)
get_response_host_function os p = do
  nread ← invoke os (read p.res_fd p.sz_ret)
  pure (if is_short nread.ret p.sz_ret then negsuc 0 else pos 0, nread.bytes)
