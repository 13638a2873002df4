-- ===== src/HostFunction/Tests/Pipes.antt =====
-- Two calls of a function of one byte, over two pipes that work as pipe(7) says.
use robot_ipc.Common.{
  ℕ, suc, ◌+◌, ◌≤◌, ◌≡◌, refl, arith, false, List, [], ◌∷◌, Option, none, some, ℤ, pos, negsuc, leb,
  if◌then◌else◌, length, take,
}
use robot_ipc.Posix.{Os, World, Call, Reply}
use robot_ipc.HostFunction.Caller.{Caller}
use robot_ipc.HostFunction.Receiver.{Entry}
use robot_ipc.HostFunction.Remote.{
  content, IsFifo, Connected, Op, send, serve, receive, perform_all,
}
use robot_ipc.HostFunction.Remote.Queues.{Queues, apply_all}
use robot_ipc.HostFunction.Remote.Messages.{Represents}
use robot_ipc.HostFunction.Remote.Service.{remote_refines}

abbrev pub reply : ℤ → List ℕ → Reply
reply ret bytes = record { ret = ret; eexist = false; bytes = bytes; events = [] }

abbrev opened : World → ℕ
opened [] = 0
opened ((Call.open_fifo path, r) ∷ h) = suc (opened h)
opened ((c, r) ∷ h) = opened h

-- Pipes that answer from what is in them, and are opened as 7, 8 and so on; every other call gives
-- 64, or 0 where this says that it was done.
abbrev pipes : (pipe_of : ℤ → ℕ) → World → Call → Reply
pipes pipe_of h (Call.write fd bytes) = reply (pos (length bytes)) []
pipes pipe_of h (Call.read fd count) =
    let there = content pipe_of (pipe_of fd) h in
    if leb count (length there) then reply (pos count) (take count there) else reply (negsuc 0) []
pipes pipe_of h (Call.open_fifo path) = reply (pos (7 + opened h)) []
pipes pipe_of h (Call.mkdir path) = reply (pos 0) []
pipes pipe_of h (Call.mkfifo path) = reply (pos 0) []
pipes pipe_of h (Call.epoll_ctl_add epoll_fd fd token) = reply (pos 0) []
pipes pipe_of h c = reply (pos 64) []

abbrev pub piped : (pipe_of : ℤ → ℕ) → Os
piped pipe_of = record { answer = pipes pipe_of; pipe_buf = 4096 }

pub piped_reads :
    (pipe_of : ℤ → ℕ) (h : World) (fd : ℤ) (count : ℕ)
    → count ≤ length (content pipe_of (pipe_of fd) h)
    → ((pipes pipe_of h (Call.read fd count)).ret ≡ pos count)
      × ((pipes pipe_of h (Call.read fd count)).bytes ≡ take count (content pipe_of (pipe_of fd) h))
piped_reads pipe_of h fd count there = ground (arith, there)

abbrev pub piped-IsFifo : (pipe_of : ℤ → ℕ) → IsFifo pipe_of (piped pipe_of)
piped-IsFifo pipe_of = record {
  capacity = 65536;
  holds = omega arith;
  writes = λ h fd bytes fits room. refl;
  reads = λ h fd count there. piped_reads pipe_of h fd count there;
}

-- The caller's descriptors are 5 and 6, the dispatcher's 7 and 8.
abbrev pub pipe_of : ℤ → ℕ
pipe_of (pos n) = if leb n 5 then 1 else if leb n 6 then 2 else if leb n 7 then 1 else 2
pipe_of (negsuc n) = 0

abbrev add_one : List ℕ → ℤ → Option (List ℕ)
add_one [] user = none
add_one (x ∷ xs) user = some ((x + 1) ∷ [])

abbrev caller : Caller
caller = record { address = pos 64; req_fd = pos 5; res_fd = pos 6; sz_arg = 1; sz_ret = 1 }

abbrev entry : Entry
entry = record {
  req_fd = pos 7;
  res_fd = pos 8;
  foo = add_one;
  user_data = pos 0;
  owns_user_data = 0;
  sz_arg = 1;
  sz_ret = 1;
}

add_one_whole : (args ret : List ℕ) → add_one args (pos 0) ≡ some ret → length ret ≡ 1
add_one_whole [] ret e = cc (e)
add_one_whole (x ∷ xs) ret e = ground (arith, e)

connected : Connected pipe_of (piped pipe_of) caller entry
connected = record {
  requests = refl;
  responses = refl;
  apart = λ e. omega (arith, e);
  same_arg = refl;
  same_ret = refl;
  fits_arg = omega arith;
  fits_ret = omega arith;
  whole = add_one_whole;
}

abbrev empty : Queues
empty = record { requests = []; responses = [] }

abbrev two_calls : List Op
two_calls = send (10 ∷ []) ∷ send (20 ∷ []) ∷ serve ∷ serve ∷ receive ∷ receive ∷ []

abbrev results : List (ℤ × List ℕ)
results =
    (pos 0, []) ∷ (pos 0, []) ∷ (pos 0, []) ∷ (pos 0, []) ∷ (pos 0, 11 ∷ []) ∷ (pos 0, 21 ∷ []) ∷ []

in_order : apply_all 65536 entry two_calls empty ≡ some (results, empty)
unfolding apply_all
in_order = refl

remote_refines_example :
    (h' : World) × (perform_all (piped pipe_of) caller entry two_calls [] ≡ some (results, h'))
    × Represents pipe_of entry h' empty
remote_refines_example =
    remote_refines pipe_of (piped pipe_of) caller entry (piped-IsFifo pipe_of) connected two_calls
      empty empty results [] (record { requests = refl; responses = refl; args = tt; rets = tt })
      in_order
