-- ===== src/HostFunction/Tests/Batch.antt =====
-- A batch of three events for two functions of one dispatcher.
use robot_ipc.Common.{
  ◌/◌, ltb, if◌then◌else◌, ℕ, zero, suc, ◌+◌, ◌*◌, ◌≡◌, refl, arith, Bool, update, true, false,
  List, [], ◌∷◌, Option, none, some, ℤ, pos, negsuc, length,
}
use robot_ipc.HostFunction.Tests.Pipes.{reply, piped, piped-IsFifo}
use robot_ipc.Posix.{World, Call}
use robot_ipc.HostFunction.Receiver.{Entry, Dispatcher}
use robot_ipc.HostFunction.Receiver.Dispatch.{handle_events}
use robot_ipc.HostFunction.Remote.Queues.{Queues}
use robot_ipc.HostFunction.Remote.Batch.{
  IsSeparate, RepresentsAll, KeepsOutside, serve_batch, handle_events_refines,
}

-- The descriptors of the dispatcher are open on two pipes, and each one of a function on its own.
abbrev pub pipe_of : ℤ → ℕ
pipe_of (pos n) = if ltb n 6 then n / 2 else n
pipe_of (negsuc n) = 0

-- Function `i` adds `i` to its byte.
abbrev add : ℕ → List ℕ → ℤ → Option (List ℕ)
add i [] user = none
add i (x ∷ xs) user = some ((x + i) ∷ [])

abbrev entry : ℕ → Entry
entry i = record {
  req_fd = pos (2 * i + 7);
  res_fd = pos (2 * i + 8);
  foo = add i;
  user_data = pos 0;
  owns_user_data = 0;
  sz_arg = 1;
  sz_ret = 1;
}

abbrev pub dispatcher : Dispatcher
dispatcher = record {
  address = pos 64;
  epoll_fd = pos 1;
  to_daemon_read = pos 2;
  to_daemon_write = pos 3;
  from_daemon_read = pos 4;
  from_daemon_write = pos 5;
  cnt_func = 2;
  capacity = 2;
  arrays = [];
  entries = entry;
}

add_whole : (i : ℕ) (args ret : List ℕ) → add i args (pos 0) ≡ some ret → length ret ≡ 1
add_whole i [] ret e = cc (e)
add_whole i (x ∷ xs) ret e = ground (arith, e)

pub separate : IsSeparate pipe_of (piped pipe_of) dispatcher
separate = record {
  count = omega arith;
  apart = λ i below e. ground (arith, e);
  others = λ i j bi bj ne. (
    λ e. ground (arith, e, ne),
    λ e. ground (arith, e),
    λ e. ground (arith, e),
    λ e. ground (arith, e, ne),
  );
  fits = λ i below. (omega arith, omega arith);
  whole = λ i below. add_whole i;
}

-- Both functions have been sent 10, and the second one 20 too.
abbrev pub before : World
before =
    (Call.write (pos 9) (20 ∷ []), reply (pos 1) [])
    ∷ (Call.write (pos 9) (10 ∷ []), reply (pos 1) [])
    ∷ (Call.write (pos 7) (10 ∷ []), reply (pos 1) [])
    ∷ []

abbrev pub queues : List (List ℕ) → List (List ℕ) → Queues
queues requests responses = record { requests = requests; responses = responses }

abbrev pub waiting : ℕ → Queues
waiting zero = queues ((10 ∷ []) ∷ []) []
waiting (suc i) = queues ((10 ∷ []) ∷ (20 ∷ []) ∷ []) []

pub before_lem : RepresentsAll pipe_of dispatcher before waiting
before_lem zero below = record { requests = refl; responses = refl; args = (refl, tt); rets = tt }
before_lem (suc zero) below = record {
  requests = refl;
  responses = refl;
  args = (refl, (refl, tt));
  rets = tt;
}
before_lem (suc (suc i)) below = absurd (omega (arith, below))

-- The second of the four events is not readable.
abbrev events : List (Bool × ℕ)
events = (true, 1) ∷ (false, 0) ∷ (true, 0) ∷ (true, 1) ∷ []

abbrev answered : ℕ → Queues
answered =
    update
      (update (update waiting 1 (queues ((20 ∷ []) ∷ []) ((11 ∷ []) ∷ []))) 0
        (queues [] ((10 ∷ []) ∷ [])))
      1 (queues [] ((11 ∷ []) ∷ (21 ∷ []) ∷ []))

served : serve_batch 65536 dispatcher events waiting ≡ some answered
unfolding serve_batch
served = refl

handle_events_refines_example :
    (h' : World) × (handle_events (piped pipe_of) dispatcher events false before ≡ some (false, h'))
    × RepresentsAll pipe_of dispatcher h' answered
    × KeepsOutside pipe_of dispatcher before h'
handle_events_refines_example =
    handle_events_refines pipe_of (piped pipe_of) dispatcher (piped-IsFifo pipe_of) separate events
      waiting answered before before_lem served
