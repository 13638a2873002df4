-- ===== src/HostFunction/Tests/Shutdown.antt =====
-- A batch in which the message to exit stands between requests.
use robot_ipc.Common.{
  ℕ, ◌≡◌, refl, arith, Bool, true, false, List, [], ◌∷◌, ◌++◌, none, some, update,
}
use robot_ipc.Posix.{World, read, write}
use robot_ipc.HostFunction.Receiver.Dispatch.{control_token, exit_bytes, zero_bytes, handle_events}
use robot_ipc.HostFunction.Remote.Queues.{Queues}
use robot_ipc.HostFunction.Remote.Batch.{RepresentsAll, serve_batch}
use robot_ipc.HostFunction.Remote.Shutdown.{IsControlled, exit_handshake}
use robot_ipc.HostFunction.Tests.Pipes.{piped, piped-IsFifo}
use robot_ipc.HostFunction.Tests.Batch.{
  pipe_of, dispatcher, separate, queues, waiting, before, before_lem,
}

control : IsControlled pipe_of (piped pipe_of) dispatcher
control = record {
  to = refl;
  from = refl;
  apart = λ e. omega (arith, e);
  to_outside = λ i below. (λ e. ground (arith, e), λ e. ground (arith, e));
  from_outside = λ i below. (λ e. ground (arith, e), λ e. ground (arith, e));
  fits = omega arith;
}

abbrev earlier : List (Bool × ℕ)
earlier = (true, 1) ∷ []

abbrev later : List (Bool × ℕ)
later = (true, 0) ∷ (true, 1) ∷ []

abbrev served_one : ℕ → Queues
served_one = update waiting 1 (queues ((20 ∷ []) ∷ []) ((11 ∷ []) ∷ []))

first_part : serve_batch 65536 dispatcher earlier waiting ≡ some served_one
unfolding serve_batch
first_part = refl

exit_handshake_example :
    let told = write dispatcher.to_daemon_write exit_bytes in
    let h₀ = (told, (piped pipe_of).answer before told) ∷ before in
    (h' : World) × (handle_events
        (piped pipe_of)
        dispatcher
        (earlier ++ (true, control_token) ∷ [])
        false
        h₀
      ≡ some (true, h'))
    × RepresentsAll pipe_of dispatcher h' served_one
    × (((piped pipe_of).answer h' (read dispatcher.from_daemon_read 4)).bytes ≡ zero_bytes)
    × (handle_events (piped pipe_of) dispatcher (earlier ++ (true, control_token) ∷ later) false h₀
        ≡ none)
exit_handshake_example =
    exit_handshake pipe_of (piped pipe_of) dispatcher (piped-IsFifo pipe_of) separate control
      earlier later waiting served_one before before_lem refl refl first_part
