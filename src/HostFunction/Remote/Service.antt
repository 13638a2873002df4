-- ===== src/HostFunction/Remote/Service.antt =====
-- The calls of the two sides implement the abstract service.
use robot_ipc.Common.{
  ℕ, ◌+◌, ◌++◌, leb, ◌≡◌, inl, inr, arith, List, [], ◌∷◌, some, ℤ, ◌==◌, ==_iff, length, Bool-cases,
  Option-cases,
}
use robot_ipc.Posix.{Os, World}
use robot_ipc.HostFunction.Caller.{Caller}
use robot_ipc.HostFunction.Receiver.{Entry}
use robot_ipc.HostFunction.Remote.{IsFifo, Connected, Op, send, serve, receive, perform_all}
use robot_ipc.HostFunction.Remote.Queues.{
  concat, response_to, Queues, serve_first, receive_first, apply, apply_all,
}
use robot_ipc.HostFunction.Remote.Messages.{Represents, Performs}
use robot_ipc.HostFunction.Remote.Turns.{send_lem, receive_lem, serve_lem}

module _ (pipe_of : ℤ → ℕ) (os : Os) (fifo : IsFifo pipe_of os) (p : Caller) (e : Entry)
    (joined : Connected pipe_of os p e) where
  serve-Performs :
      (requests responses : List (List ℕ)) (h : World) (out : ℤ × List ℕ) (q' : Queues)
      → Represents pipe_of e h (record { requests = requests; responses = responses })
      → serve_first fifo.capacity e requests responses ≡ some (out, q')
      → Performs pipe_of os p e serve
          (record { requests = requests; responses = responses })
          h
          out
          q'
  serve-Performs [] responses h out q' rep found = cc (found)
  serve-Performs (arg ∷ requests) responses h out q' rep found =
      let (h', run, rep') = serve_lem pipe_of os fifo p e joined requests responses arg h rep in
      let later = responses ++ response_to e (e.foo arg e.user_data) in
      elim (Bool-cases (leb (length (concat later)) fifo.capacity)) [
        | inr full ↦ absurd (ground (arith, full, found))
        | inl room ↦ (h', ground (arith, run, room, found), ground (arith, rep', room, found))
      ]

  receive-Performs :
      (requests responses : List (List ℕ)) (h : World) (out : ℤ × List ℕ) (q' : Queues)
      → Represents pipe_of e h (record { requests = requests; responses = responses })
      → receive_first requests responses ≡ some (out, q')
      → Performs pipe_of os p e receive
          (record { requests = requests; responses = responses })
          h
          out
          q'
  receive-Performs requests [] h out q' rep found = cc (found)
  receive-Performs requests (ret ∷ responses) h out q' rep found =
      let (h', run, rep') = receive_lem pipe_of os fifo p e joined requests responses ret h rep in
      (h', ground (arith, run, found), ground (arith, rep', found))

  send-Performs :
      (arg : List ℕ) (q q' : Queues) (h : World) (out : ℤ × List ℕ)
      → Represents pipe_of e h q
      → apply fifo.capacity e (send arg) q ≡ some (out, q')
      → Performs pipe_of os p e (send arg) q h out q'
  send-Performs arg q q' h out rep found = elim (Bool-cases (length arg == e.sz_arg)) [
    | inr odd ↦ absurd (ground (arith, odd, found))
    | inl sized ↦ elim (Bool-cases (leb (length (concat q.requests) + length arg) fifo.capacity)) [
      | inr full ↦ absurd (ground (arith, sized, full, found))
      | inl room ↦
          let (h', run, rep') =
            send_lem pipe_of os fifo p e joined q h arg rep ((==_iff (length arg) e.sz_arg).0 sized)
              (ground (arith, room)) in
          (h', ground (arith, run, sized, room, found), ground (arith, rep', sized, room, found))
    ]
  ]

  pub perform-Performs :
      (op : Op) (q q' : Queues) (h : World) (out : ℤ × List ℕ)
      → Represents pipe_of e h q
      → apply fifo.capacity e op q ≡ some (out, q')
      → Performs pipe_of os p e op q h out q'
  perform-Performs (send arg) q q' h out rep found = send-Performs arg q q' h out rep found
  perform-Performs serve q q' h out rep found =
      serve-Performs q.requests q.responses h out q' rep found
  perform-Performs receive q q' h out rep found =
      receive-Performs q.requests q.responses h out q' rep found

-- Over pipes that keep the order of their bytes and hold `capacity` of them, a caller and a
-- dispatcher's function that are connected implement two queues of this capacity: any sequence of
-- calls, turns of the dispatcher and fetched responses that the queues allow, so that no read waits
-- for a message and no write waits for room, runs to its end, gives the results that the queues give, and
-- leaves the pipes as the queues are. Thus each response is what the function gives for one
-- argument, and they come in the order of the calls.
pub remote_refines :
    (pipe_of : ℤ → ℕ) (os : Os) (p : Caller) (e : Entry) (fifo : IsFifo pipe_of os)
    → Connected pipe_of os p e
    → (ops : List Op) (q q' : Queues) (outs : List (ℤ × List ℕ)) (h : World)
    → Represents pipe_of e h q
    → apply_all fifo.capacity e ops q ≡ some (outs, q')
    → (h' : World) × (perform_all os p e ops h ≡ some (outs, h')) × Represents pipe_of e h' q'
unfolding apply_all perform_all
remote_refines pipe_of os p e fifo joined [] q q' outs h rep found =
    (h, ground (arith, found), ground (arith, rep, found))
remote_refines pipe_of os p e fifo joined (op ∷ ops) q q' outs h rep found =
    elim (Option-cases (apply fifo.capacity e op q)) [
      | inl waits ↦ absurd (ground (arith, waits, found))
      | inr ((out, q₁), first) ↦
          let (h₁, run, rep₁) =
            perform-Performs pipe_of os fifo p e joined op q q₁ h out rep first in
          elim (Option-cases (apply_all fifo.capacity e ops q₁)) [
            | inl waits ↦ absurd (ground (arith, first, waits, found))
            | inr ((outs', q₂), rest) ↦
                let (h', runs, rep') =
                  remote_refines pipe_of os p e fifo joined ops q₁ q₂ outs' h₁ rep₁ rest in
                (
                  h',
                  ground (arith, first, rest, run, runs, found),
                  ground (arith, first, rest, rep', found),
                )
          ]
    ]
