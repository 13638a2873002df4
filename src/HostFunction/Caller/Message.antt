-- ===== src/HostFunction/Caller/Message.antt =====
-- `unlink_host_function`, `call_host_function` and `get_response_host_function` on every branch.
use robot_ipc.Common.{
  ℕ, ◌+◌, ◌≡◌, ◌⊎◌, ◌↔◌, arith, List, ◌∷◌, some, ◌==◌, is_nonzero, if◌then◌else◌, ℤ, pos, negsuc,
}
use robot_ipc.Posix.{Os, World, close, write, read}
use robot_ipc.Posix.Balance.{is_int, one_if, closes, frees_at}
use robot_ipc.HostFunction.Pipe.{robot_ok, err_pipe_close}
use robot_ipc.HostFunction.Caller.{
  Caller, unlink_host_function, call_host_function, get_response_host_function,
}

-- `unlink_host_function` returns ROBOT_OK exactly if both calls of `close` answer 0, and ERR_PIPE_CLOSE
-- otherwise. The descriptor of the requests is closed in any case, but that of the responses only if
-- the first call answers 0, and the handle is freed, by its address, only where ROBOT_OK is returned:
-- after any failure it is never freed, and nothing else is.
pub unlink_cases :
    (os : Os) (p : Caller) (fd code : ℕ) (block : ℤ) (h h' : World)
    → unlink_host_function os p h ≡ some (code, h')
    → let first = os.answer h (close p.req_fd) in
      let h₁ = (close p.req_fd, first) ∷ h in
      let second = os.answer h₁ (close p.res_fd) in
      ((code ≡ robot_ok) ↔ ((first.ret ≡ pos 0) × (second.ret ≡ pos 0)))
      × ((code ≡ robot_ok) ⊎ (code ≡ err_pipe_close))
      × (closes fd h'
          ≡ closes fd h
            + one_if (is_int p.req_fd (pos fd))
            + (if is_nonzero first.ret then 0 else one_if (is_int p.res_fd (pos fd))))
      × (frees_at block h'
          ≡ frees_at block h + (if code == robot_ok then one_if (is_int p.address block) else 0))
unfolding unlink_host_function
unlink_cases os p fd code block h h' e = (ground arith, ground arith, ground arith, ground arith)

-- A call returns 0 exactly when the whole argument was written, and -1 otherwise; a response
-- returns 0 exactly when a whole result was read, and -1 otherwise.
pub message-codes :
    (os : Os) (p : Caller) (arg : List ℕ) (h : World) (sent : ℤ) (h₁ : World) (got : ℤ)
    (buf : List ℕ) (h₂ : World)
    → call_host_function os p arg h ≡ some (sent, h₁)
    → get_response_host_function os p h₁ ≡ some ((got, buf), h₂)
    → ((sent ≡ pos 0) ↔ ((os.answer h (write p.req_fd arg)).ret ≡ pos p.sz_arg))
      × ((sent ≡ pos 0) ⊎ (sent ≡ negsuc 0))
      × ((got ≡ pos 0) ↔ ((os.answer h₁ (read p.res_fd p.sz_ret)).ret ≡ pos p.sz_ret))
      × ((got ≡ pos 0) ⊎ (got ≡ negsuc 0))
unfolding call_host_function get_response_host_function
message-codes os p arg h sent h₁ got buf h₂ e₁ e₂ = ground arith
