-- ===== src/Bindings/Cpp/Answered.antt =====
-- A call of `HostFunctionCaller` that a function of a `HostFunctionDispatcher` answers, both of
-- include/robot_ipc.hpp.
use robot_ipc.Common.{
  ℕ, suc, ◌<◌, ◌≤◌, ◌≡◌, ◌≢◌, ◌∙◌, Option-cases, none, inl, inr, ap, arith, List, [], ◌∷◌, ◌++◌,
  Option, some, ℤ, pos, length, drop, drop-length, sym,
}
use mathlib.Core.List.{append-nil}
use robot_ipc.Posix.{Os, M, World, pure, ◌>>=◌}
use robot_ipc.HostFunction.Caller.{Caller, link_host_function}
use robot_ipc.HostFunction.Caller.Link.{link-sizes}
use robot_ipc.Bindings.{ok}
use robot_ipc.HostFunction.Receiver.{HostFunctionEx, Entry, Dispatcher}
use robot_ipc.HostFunction.Receiver.Legacy.{attach-appends}
use robot_ipc.HostFunction.Receiver.Dispatch.{handle_call}
use robot_ipc.HostFunction.Remote.{IsFifo, Connected, perform}
use robot_ipc.HostFunction.Remote.Queues.{response_to}
use robot_ipc.HostFunction.Remote.Messages.{Represents}
use robot_ipc.HostFunction.Remote.Answering.{handle_call-Represents}
use robot_ipc.HostFunction.Remote.Turns.{send_lem, receive_lem}
use robot_ipc.Bindings.PyRemote.{empty, send-call}
use robot_ipc.Bindings.Cpp.{Layout, IsTrivial, call, get_response, by_bytes, attach, new_caller}

-- A call, the dispatcher's turn, and the response: what the two calls return, and `ret`.
unfoldable pub ask :
    {T R : Type 0} → Os → Layout T → Layout R → Caller → Entry → T → (old : R) → M (ℤ × ℤ × R)
ask os arg ret p e x old = do
  sent ← call os arg ret p x
  done ← handle_call os e
  (got, r) ← get_response os arg ret p old
  pure (sent, got, r)

by_bytes-sized :
    {T R : Type 0} (os : Os) (arg : Layout T) (ret : Layout R) (foo : T → Option R)
    (args bytes : List ℕ)
    → IsTrivial ret
    → by_bytes os arg ret foo args ≡ some bytes
    → length bytes ≡ ret.size_of
by_bytes-sized os arg ret foo args bytes trivial e =
    elim (Option-cases (foo (arg.from_bytes args))) [
      | inl nothing ↦ absurd (ground (arith, nothing, e))
      | inr (r, found) ↦
          let same : ret.to_bytes r ≡ bytes = ground (arith, found, e) in
          ap length (sym same) ∙ trivial.sized r
    ]

new_caller-sizes :
    {T R : Type 0} (os : Os) (arg : Layout T) (ret : Layout R) (name : List ℕ) (p : Caller)
    (h h' : World)
    → new_caller os arg ret name h ≡ some (ok p, h')
    → (arg.size_of ≤ os.pipe_buf)
      × (ret.size_of ≤ os.pipe_buf)
      × (p.sz_arg ≡ arg.size_of)
      × (p.sz_ret ≡ ret.size_of)
unfolding new_caller
new_caller-sizes os arg ret name p h h' e =
    elim (Option-cases (link_host_function os name arg.size_of ret.size_of h)) [
      | inl undefined ↦ absurd (ground (arith, undefined, e))
      | inr ((none, w), refused) ↦ absurd (ground (arith, refused, e))
      | inr ((some q, w), linked) ↦
          let same : q ≡ p = ground (arith, linked, e) in
          rw (sym same) (link-sizes os name arg.size_of ret.size_of h w q linked)
    ]

-- The function that was attached runs at its entry, to which the caller is connected.
attached-Connected :
    {T R : Type 0} (pipe_of : ℤ → ℕ) (os : Os) (arg : Layout T) (ret : Layout R)
    (foo : T → Option R) (d d' : Dispatcher) (name called : List ℕ) (g g' k k' : World) (p : Caller)
    → IsTrivial ret
    → attach os d name arg ret foo g ≡ some ((pos 0, d'), g')
    → new_caller os arg ret called k ≡ some (ok p, k')
    → let e = d'.entries d.cnt_func in
      pipe_of p.req_fd ≡ pipe_of e.req_fd
      → pipe_of p.res_fd ≡ pipe_of e.res_fd
      → pipe_of e.req_fd ≢ pipe_of e.res_fd
      → ((args : List ℕ) → e.foo args e.user_data ≡ by_bytes os arg ret foo args)
        × (e.sz_arg ≡ arg.size_of)
        × (e.sz_ret ≡ ret.size_of)
        × Connected pipe_of os p e
unfolding attach
attached-Connected pipe_of os arg ret foo d d' name called g g' k k' p trivial attached made
      requests responses apart =
    let e = d'.entries d.cnt_func in
    let (count, code, owner, sz_arg, sz_ret, others) =
      attach-appends os d d' name (by_bytes os arg ret foo) arg.size_of ret.size_of (suc d.cnt_func)
        g g' (λ s. omega (arith, s)) attached in
    let (fits_arg, fits_ret, same_arg, same_ret) = new_caller-sizes os arg ret called p k k' made in
    let runs : (args : List ℕ) → e.foo args e.user_data ≡ by_bytes os arg ret foo args =
      λ args. ap (λ (f : HostFunctionEx). f args e.user_data) code in
    (
      runs,
      sz_arg,
      sz_ret,
      record {
        requests = requests;
        responses = responses;
        apart = apart;
        same_arg = same_arg ∙ sym sz_arg;
        same_ret = same_ret ∙ sym sz_ret;
        fits_arg = omega (arith, sz_arg, fits_arg);
        fits_ret = omega (arith, sz_ret, fits_ret);
        whole = λ args got found.
            by_bytes-sized os arg ret foo args got trivial (sym (runs args) ∙ found) ∙ sym sz_ret;
      },
    )

-- Over pipes that keep the order of their bytes and are empty before, let a function be attached by
-- the classes of C++ in one process, and a caller be made in another for the same types, whose bytes
-- are the object, with descriptors of the same two pipes. A call then returns 0, and the response
-- returns 0 with what the function gives for the argument, whatever `ret` held before.
pub cpp_ask_answered :
    {T R : Type 0} (pipe_of : ℤ → ℕ) (os : Os) (arg : Layout T) (ret : Layout R)
    (foo : T → Option R) (d d' : Dispatcher) (name called : List ℕ) (g g' k k' : World) (p : Caller)
    → IsFifo pipe_of os
    → IsTrivial arg
    → IsTrivial ret
    → 0 < ret.size_of
    → attach os d name arg ret foo g ≡ some ((pos 0, d'), g')
    → new_caller os arg ret called k ≡ some (ok p, k')
    → let e = d'.entries d.cnt_func in
      pipe_of p.req_fd ≡ pipe_of e.req_fd
      → pipe_of p.res_fd ≡ pipe_of e.res_fd
      → pipe_of e.req_fd ≢ pipe_of e.res_fd
      → (x : T) (old r : R) (h : World) → Represents pipe_of e h empty
      → foo x ≡ some r
      → (h' : World) × (ask os arg ret p e x old h ≡ some ((pos 0, pos 0, r), h'))
        × Represents pipe_of e h' empty
unfolding ask call get_response perform
cpp_ask_answered pipe_of os arg ret foo d d' name called g g' k k' p fifo same_arg same_ret
      some_bytes attached made requests responses apart x old r h rep gives =
    let e = d'.entries d.cnt_func in
    let (code, sz_arg, sz_ret, con) =
      attached-Connected pipe_of os arg ret foo d d' name called g g' k k' p same_ret attached made
        requests responses apart in
    let message = arg.to_bytes x in
    let answer = ret.to_bytes r in
    let runs : e.foo message e.user_data ≡ some answer =
      code message ∙ ground (arith, ap foo (same_arg.copied x), gives) in
    let answered : response_to e (e.foo message e.user_data) ≡ answer ∷ [] =
      ap (response_to e) runs ∙ ground (arith, sz_ret) in
    let (h₁, sends, rep₁) =
      send_lem pipe_of os fifo p e con empty h message rep (same_arg.sized x ∙ sym sz_arg)
        (omega (arith, same_arg.sized x, sz_arg, con.fits_arg, fifo.holds)) in
    let (h₂, turn, rep₂) =
      handle_call-Represents pipe_of os fifo e con.apart con.whole [] [] message h₁ rep₁ in
    let (h₃, receives, rep₃) =
      receive_lem pipe_of os fifo p e con [] [] answer h₂ (rw answered at rep₂) in
    let called = send-call os p e message h h₁ (pos 0) sends in
    let filled : ret.from_bytes (answer ++ drop (length answer) (ret.to_bytes old)) ≡ r =
      ap ret.from_bytes (
        ap (λ (xs : List ℕ). answer ++ xs)
          (drop-length (length answer) (ret.to_bytes old)
            (same_ret.sized r ∙ sym (same_ret.sized old)))
        ∙ append-nil answer)
      ∙ same_ret.copied r in
    (h₃, ground (arith, called, turn, receives, filled), rep₃)
