-- ===== src/HostFunction/Remote/Answering.antt =====
-- The dispatcher's turn for one function, and what it leaves alone.
use robot_ipc.Common.{
  ℕ, ◌≡◌, ◌≢◌, inl, inr, refl, sym, ◌∙◌, ap, arith, List, [], ◌∷◌, ◌++◌, Option, none, some, ℤ,
  ◌==◌, length, take, take-length, Bool-cases,
}
use mathlib.Core.List.{append-nil}
use robot_ipc.Posix.{Os, World, malloc, free, write, read}
use robot_ipc.HostFunction.Caller.{is_short}
use robot_ipc.HostFunction.Receiver.{Entry}
use robot_ipc.HostFunction.Receiver.Dispatch.{handle_call, respond}
use robot_ipc.HostFunction.Remote.{content, IsFifo}
use robot_ipc.HostFunction.Remote.Queues.{response_to}
use robot_ipc.HostFunction.Remote.Messages.{
  concat, concat-append, Each-append, Represents, ==_refl, ==_ne, first_lem,
}

module _ (pipe_of : ℤ → ℕ) (os : Os) (fifo : IsFifo pipe_of os) (e : Entry)
    (apart : pipe_of e.req_fd ≢ pipe_of e.res_fd)
    (sizes : (args ret : List ℕ) → e.foo args e.user_data ≡ some ret → length ret ≡ e.sz_ret) where
  -- The end of the dispatcher's turn: what it has sent by then.
  respond-Represents :
      (requests responses : List (List ℕ)) (buffer : ℤ) (answer : Option (List ℕ)) (h : World)
      → ((ret : List ℕ) → answer ≡ some ret → length ret ≡ e.sz_ret)
      → Represents pipe_of e h (record { requests = requests; responses = responses })
      → (h' : World) × (respond os e buffer answer h ≡ some (tt, h'))
        × Represents pipe_of e h'
            (record { requests = requests; responses = responses ++ response_to e answer })
  unfolding respond
  respond-Represents requests responses buffer none h sized rep = (
    (free buffer, os.answer h (free buffer)) ∷ h,
    refl,
    record {
      requests = rep.requests;
      responses = rw (append-nil responses) rep.responses;
      args = rep.args;
      rets = rw (append-nil responses) rep.rets;
    },
  )
  respond-Represents requests responses buffer (some ret) h sized rep =
      elim (Bool-cases (e.sz_ret == 0)) [
        | inl nothing ↦ (
          (free buffer, os.answer h (free buffer)) ∷ h,
          ground (arith, nothing),
          record {
            requests = rep.requests;
            responses = rw (nothing, append-nil responses) rep.responses;
            args = rep.args;
            rets = rw (nothing, append-nil responses) rep.rets;
          },
        )
        | inr due ↦
            let long = sized ret refl in
            let put = write e.res_fd (take e.sz_ret ret) in
            let h₁ = (put, os.answer h put) ∷ h in
            (
              (free buffer, os.answer h₁ (free buffer)) ∷ h₁,
              ground (arith, due),
              record {
                requests =
                    rw (==_ne (pipe_of e.res_fd) (pipe_of e.req_fd) (λ s. apart (sym s)))
                      rep.requests;
                responses =
                    rw
                      (
                        due,
                        ==_refl (pipe_of e.res_fd) (pipe_of e.res_fd) refl,
                        rep.responses,
                        take-length e.sz_ret ret (sym long),
                      )
                      (sym (
                        concat-append responses (ret ∷ [])
                        ∙ ap (λ (x : List ℕ). concat responses ++ x) (append-nil ret)));
                args = rep.args;
                rets = rw due (Each-append e.sz_ret responses (ret ∷ []) rep.rets (long, tt));
              },
            )
      ]

  pub handle_call-Represents :
      (requests responses : List (List ℕ)) (arg : List ℕ) (h : World)
      → Represents pipe_of e h (record { requests = arg ∷ requests; responses = responses })
      → (h' : World) × (handle_call os e h ≡ some (tt, h'))
        × Represents pipe_of e h' (record {
          requests = requests;
          responses = responses ++ response_to e (e.foo arg e.user_data);
        })
  unfolding handle_call
  handle_call-Represents requests responses arg h rep =
      let m = os.answer h (malloc e.sz_arg) in
      let h₁ = (malloc e.sz_arg, m) ∷ h in
      let r = os.answer h₁ (read e.req_fd e.sz_arg) in
      let h₂ = (read e.req_fd e.sz_arg, r) ∷ h₁ in
      let (whole, bytes, left) =
        first_lem pipe_of os fifo e.req_fd e.sz_arg arg (concat requests) h₁ rep.requests
          rep.args.0 in
      let rep₂ : Represents pipe_of e h₂ (record { requests = requests; responses = responses }) =
        record {
          requests = rw (==_refl (pipe_of e.req_fd) (pipe_of e.req_fd) refl) left;
          responses = rw (==_ne (pipe_of e.req_fd) (pipe_of e.res_fd) apart) rep.responses;
          args = rep.args.1;
          rets = rep.rets;
        } in
      let (h', run, rep') =
        respond-Represents requests responses m.ret (e.foo arg e.user_data) h₂ (sizes arg) rep₂ in
      (h', ground (arith, whole, bytes, run), rep')

-- A pipe that is not the function's own.
module _ (pipe_of : ℤ → ℕ) (os : Os) (e : Entry) (pipe : ℕ) (not_requests : pipe_of e.req_fd ≢ pipe)
    (not_responses : pipe_of e.res_fd ≢ pipe) where
  respond-content :
      (buffer : ℤ) (answer : Option (List ℕ)) (h h' : World)
      → respond os e buffer answer h ≡ some (tt, h')
      → content pipe_of pipe h' ≡ content pipe_of pipe h
  unfolding respond
  respond-content buffer none h h' run = ground (arith, run)
  respond-content buffer (some ret) h h' run = elim (Bool-cases (e.sz_ret == 0)) [
    | inl nothing ↦ ground (arith, nothing, run)
    | inr due ↦ ground (arith, due, run, ==_ne (pipe_of e.res_fd) pipe not_responses)
  ]

  pub handle_call-content :
      (h h' : World)
      → handle_call os e h ≡ some (tt, h')
      → content pipe_of pipe h' ≡ content pipe_of pipe h
  unfolding handle_call
  handle_call-content h h' run =
      let m = os.answer h (malloc e.sz_arg) in
      let h₁ = (malloc e.sz_arg, m) ∷ h in
      let got = os.answer h₁ (read e.req_fd e.sz_arg) in
      let h₂ = (read e.req_fd e.sz_arg, got) ∷ h₁ in
      let same : content pipe_of pipe h₂ ≡ content pipe_of pipe h =
        rw (==_ne (pipe_of e.req_fd) pipe not_requests) refl in
      elim (Bool-cases (is_short got.ret e.sz_arg)) [
        | inl short ↦ ground (arith, short, run, same)
        | inr whole ↦
            respond-content m.ret (e.foo got.bytes e.user_data) h₂ h' (ground (arith, whole, run))
            ∙ same
      ]
