-- ===== src/HostFunction/Remote.antt =====
-- A caller and a dispatcher's function together: src/host_function_caller.c and
-- src/host_function_receiver.c over the two pipes that join them. What the kernel does with a pipe
-- is a parameter.
pub mod Answering
pub mod Batch
pub mod Messages
pub mod Queues
pub mod Service
pub mod Shutdown
pub mod Turns
use robot_ipc.Common.{
  ℕ, zero, suc, ◌+◌, ◌≤◌, ◌≡◌, ◌≢◌, Bool, true, false, List, [], ◌∷◌, ◌++◌, Option, none, some, ℤ,
  pos, ◌==◌, if◌then◌else◌, length, take, drop,
}
use robot_ipc.Posix.{Os, M, World, Call, Reply, pure, ◌>>=◌, write, read}
use robot_ipc.HostFunction.Caller.{Caller, call_host_function, get_response_host_function}
use robot_ipc.HostFunction.Receiver.{Entry}
use robot_ipc.HostFunction.Receiver.Dispatch.{handle_call}

-- The bytes in pipe `q`: what was written to it and not yet read. `pipe_of` says which pipe a
-- descriptor is open on; the descriptors of the two processes have different numbers.
abbrev pub content : (pipe_of : ℤ → ℕ) (q : ℕ) → World → List ℕ
content pipe_of q [] = []
content pipe_of q ((write fd bytes, r) ∷ h) =
    if pipe_of fd == q then content pipe_of q h ++ bytes else content pipe_of q h
content pipe_of q ((read fd count, r) ∷ h) =
    if pipe_of fd == q then drop (length r.bytes) (content pipe_of q h) else content pipe_of q h
content pipe_of q ((c, r) ∷ h) = content pipe_of q h

-- What pipe(7) says: a pipe has a capacity, of no fewer than PIPE_BUF bytes; a write of at most
-- PIPE_BUF bytes is taken whole where there is room for it, and a read gets the first of the bytes
-- that are there. A write to a pipe without room, and a read of more than there is, which wait, are
-- left open.
pub record IsFifo (pipe_of : ℤ → ℕ) (os : Os) : Type 0 where
  pub capacity : ℕ
  pub holds : os.pipe_buf ≤ capacity
  pub writes :
      (h : World) (fd : ℤ) (bytes : List ℕ)
      → length bytes ≤ os.pipe_buf
      → length (content pipe_of (pipe_of fd) h) + length bytes ≤ capacity
      → (os.answer h (write fd bytes)).ret ≡ pos (length bytes)
  pub reads :
      (h : World) (fd : ℤ) (count : ℕ)
      → count ≤ length (content pipe_of (pipe_of fd) h)
      → ((os.answer h (read fd count)).ret ≡ pos count)
        × ((os.answer h (read fd count)).bytes ≡ take count (content pipe_of (pipe_of fd) h))

-- The two sides are open on the same two pipes and agree on the sizes, which the attachment and the
-- link have compared with PIPE_BUF; and what the function returns has the size that was declared.
pub record Connected (pipe_of : ℤ → ℕ) (os : Os) (p : Caller) (e : Entry) : Type 0 where
  pub requests : pipe_of p.req_fd ≡ pipe_of e.req_fd
  pub responses : pipe_of p.res_fd ≡ pipe_of e.res_fd
  pub apart : pipe_of e.req_fd ≢ pipe_of e.res_fd
  pub same_arg : p.sz_arg ≡ e.sz_arg
  pub same_ret : p.sz_ret ≡ e.sz_ret
  pub fits_arg : e.sz_arg ≤ os.pipe_buf
  pub fits_ret : e.sz_ret ≤ os.pipe_buf
  pub whole : (args ret : List ℕ) → e.foo args e.user_data ≡ some ret → length ret ≡ e.sz_ret

-- What the two sides do, in any order.
pub data Op : Type 0 where
  send : (arg : List ℕ) → Op
  serve receive : Op

-- `send` and `receive` give a result and the bytes received; `serve` is the dispatcher's turn.
unfoldable pub perform : Os → Caller → Entry → Op → M (ℤ × List ℕ)
perform os p e (send arg) = do code ← call_host_function os p arg; pure (code, [])
perform os p e serve = do done ← handle_call os e; pure (pos 0, [])
perform os p e receive = get_response_host_function os p

unfoldable pub perform_all : Os → Caller → Entry → List Op → M (List (ℤ × List ℕ))
perform_all os p e [] = pure []
perform_all os p e (op ∷ ops) = do
  out ← perform os p e op
  outs ← perform_all os p e ops
  pure (out ∷ outs)
