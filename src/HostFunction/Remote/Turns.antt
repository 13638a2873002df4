-- ===== src/HostFunction/Remote/Turns.antt =====
-- The pipes after one operation: a call, a fetched response, the turn of the dispatcher.
use robot_ipc.Common.{
  ℕ, ◌+◌, ◌≤◌, length, ◌≡◌, sym, ◌∙◌, ap, arith, false, List, [], ◌∷◌, ◌++◌, ℤ, pos, drop,
}
use mathlib.Core.List.{append-nil}
use robot_ipc.Posix.{Os, World, write, read}
use robot_ipc.HostFunction.Caller.{Caller, is_short, call_host_function, get_response_host_function}
use robot_ipc.HostFunction.Receiver.{Entry}
use robot_ipc.HostFunction.Remote.{content, IsFifo, Connected, send, serve, receive, perform}
use robot_ipc.HostFunction.Remote.Queues.{Queues, response_to}
use robot_ipc.HostFunction.Remote.Messages.{
  concat, concat-append, Each-append, Represents, ==_refl, ==_ne, is_short_whole, Performs,
  first_lem,
}
use robot_ipc.HostFunction.Remote.Answering.{handle_call-Represents}

module _ (pipe_of : ℤ → ℕ) (os : Os) (fifo : IsFifo pipe_of os) (p : Caller) (e : Entry)
    (joined : Connected pipe_of os p e) where
  pub send_lem :
      (q : Queues) (h : World) (arg : List ℕ)
      → Represents pipe_of e h q
      → length arg ≡ e.sz_arg
      → length (concat q.requests) + length arg ≤ fifo.capacity
      → Performs pipe_of os p e
          (send arg)
          q
          h
          (pos 0, [])
          (record q { requests = q.requests ++ arg ∷ [] })
  unfolding perform call_host_function
  send_lem q h arg rep sized room =
      let r = os.answer h (write p.req_fd arg) in
      let taken : r.ret ≡ pos (length arg) =
        fifo.writes h p.req_fd arg (omega (arith, sized, joined.fits_arg)) (
          omega (
            arith,
            room,
            ap (λ (c : ℕ). length (content pipe_of c h)) joined.requests,
            ap length rep.requests,
          )) in
      let whole : is_short r.ret p.sz_arg ≡ false =
        ap (λ (x : ℤ). is_short x p.sz_arg) taken
        ∙ is_short_whole (length arg) p.sz_arg (sized ∙ sym joined.same_arg) in
      (
        (write p.req_fd arg, r) ∷ h,
        ground (arith, whole),
        record {
          requests =
              rw (==_refl (pipe_of p.req_fd) (pipe_of e.req_fd) joined.requests, rep.requests)
                (sym (
                  concat-append q.requests (arg ∷ [])
                  ∙ ap (λ (x : List ℕ). concat q.requests ++ x) (append-nil arg)));
          responses =
              rw
                (==_ne (pipe_of p.req_fd) (pipe_of e.res_fd)
                  (λ s. joined.apart (sym joined.requests ∙ s)))
                rep.responses;
          args = Each-append e.sz_arg q.requests (arg ∷ []) rep.args (sized, tt);
          rets = rep.rets;
        },
      )

  pub receive_lem :
      (requests rest : List (List ℕ)) (ret : List ℕ) (h : World)
      → Represents pipe_of e h (record { requests = requests; responses = ret ∷ rest })
      → Performs pipe_of os p e receive
          (record { requests = requests; responses = ret ∷ rest })
          h
          (pos 0, ret)
          (record { requests = requests; responses = rest })
  unfolding perform get_response_host_function
  receive_lem requests rest ret h rep =
      let r = os.answer h (read p.res_fd p.sz_ret) in
      let (whole, bytes, left) =
        first_lem pipe_of os fifo p.res_fd p.sz_ret ret (concat rest) h
          (ap (λ (c : ℕ). content pipe_of c h) joined.responses ∙ rep.responses)
          (rep.rets.0 ∙ sym joined.same_ret) in
      (
        (read p.res_fd p.sz_ret, r) ∷ h,
        ground (arith, whole, bytes),
        record {
          requests =
              rw
                (==_ne (pipe_of p.res_fd) (pipe_of e.req_fd)
                  (λ s. joined.apart (sym s ∙ joined.responses)))
                rep.requests;
          responses = rw (==_refl (pipe_of p.res_fd) (pipe_of e.res_fd) joined.responses) (
              ap (λ (c : ℕ). drop (length r.bytes) (content pipe_of c h)) (sym joined.responses)
              ∙ left);
          args = rep.args;
          rets = rep.rets.1;
        },
      )

  pub serve_lem :
      (requests responses : List (List ℕ)) (arg : List ℕ) (h : World)
      → Represents pipe_of e h (record { requests = arg ∷ requests; responses = responses })
      → Performs pipe_of os p e serve
          (record { requests = arg ∷ requests; responses = responses })
          h
          (pos 0, [])
          (record {
            requests = requests;
            responses = responses ++ response_to e (e.foo arg e.user_data);
          })
  unfolding perform
  serve_lem requests responses arg h rep =
      let (h', run, rep') =
        handle_call-Represents pipe_of os fifo e joined.apart joined.whole requests responses arg h
          rep in
      (h', ground (arith, run), rep')
