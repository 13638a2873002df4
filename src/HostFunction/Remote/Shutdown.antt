-- ===== src/HostFunction/Remote/Shutdown.antt =====
-- The message by which `delete_host_function_dispatcher` ends the thread of
-- `__host_function_dispatcher`, and the answer that it waits for; src/host_function_receiver.c.
use robot_ipc.Common.{
  ℕ, ◌≤◌, ◌≡◌, ◌≢◌, inl, inr, refl, ◌∙◌, sym, arith, Bool, true, false, List, [], ◌∷◌, ◌++◌, none,
  some, if◌then◌else◌, ℤ, Option-cases,
}
use robot_ipc.Posix.{Os, World, read, write}
use robot_ipc.HostFunction.Receiver.{Dispatcher}
use robot_ipc.HostFunction.Receiver.Dispatch.{
  control_token, exit_bytes, zero_bytes, handle_control, handle_event, handle_events,
}
use robot_ipc.HostFunction.Remote.{content, IsFifo}
use robot_ipc.HostFunction.Remote.Queues.{Queues}
use robot_ipc.HostFunction.Remote.Messages.{==_refl, ==_ne, first_lem}
use robot_ipc.HostFunction.Remote.Batch.{
  IsSeparate, RepresentsAll, IsOutside, serve_batch, handle_events_refines,
}

-- The two pipes between the dispatcher and its thread, which no function uses.
pub record IsControlled (pipe_of : ℤ → ℕ) (os : Os) (p : Dispatcher) : Type 0 where
  pub to : pipe_of p.to_daemon_write ≡ pipe_of p.to_daemon_read
  pub from : pipe_of p.from_daemon_write ≡ pipe_of p.from_daemon_read
  pub apart : pipe_of p.to_daemon_read ≢ pipe_of p.from_daemon_read
  pub to_outside : IsOutside pipe_of p (pipe_of p.to_daemon_read)
  pub from_outside : IsOutside pipe_of p (pipe_of p.from_daemon_read)
  pub fits : 4 ≤ os.pipe_buf

-- The first events of a batch, and then the others.
handle_events-append :
    (os : Os) (p : Dispatcher) (xs ys : List (Bool × ℕ)) (exit exit₁ : Bool) (h h₁ : World)
    → handle_events os p xs exit h ≡ some (exit₁, h₁)
    → handle_events os p (xs ++ ys) exit h ≡ handle_events os p ys exit₁ h₁
unfolding handle_events
handle_events-append os p [] ys exit exit₁ h h₁ run = ground (arith, run)
handle_events-append os p (x ∷ xs) ys exit exit₁ h h₁ run =
    elim (Option-cases (handle_event os p x exit h)) [
      | inl undefined ↦ absurd (ground (arith, undefined, run))
      | inr ((exit₂, h₂), first) ↦
          let rest =
            handle_events-append os p xs ys exit₂ exit₁ h₂ h₁ (ground (arith, first, run)) in
          ground (arith, first, rest)
    ]

module _ (pipe_of : ℤ → ℕ) (os : Os) (fifo : IsFifo pipe_of os) (p : Dispatcher)
    (control : IsControlled pipe_of os p) where
  -- What is written to a pipe of no function leaves the queues alone.
  kept_lem :
      (qs : ℕ → Queues) (h h' : World)
      → RepresentsAll pipe_of p h qs
      → ((pipe : ℕ)
          → pipe_of p.to_daemon_read ≢ pipe
          → pipe_of p.from_daemon_read ≢ pipe
          → content pipe_of pipe h' ≡ content pipe_of pipe h)
      → RepresentsAll pipe_of p h' qs
  kept_lem qs h h' all same i below =
      let rep = all i below in
      let (to_req, to_res) = control.to_outside i below in
      let (from_req, from_res) = control.from_outside i below in
      record {
        requests = same _ (λ s. to_req (sym s)) (λ s. from_req (sym s)) ∙ rep.requests;
        responses = same _ (λ s. to_res (sym s)) (λ s. from_res (sym s)) ∙ rep.responses;
        args = rep.args;
        rets = rep.rets;
      }

  -- The message to exit, written by the dispatcher.
  told_lem :
      (qs : ℕ → Queues) (h : World)
      → RepresentsAll pipe_of p h qs
      → content pipe_of (pipe_of p.to_daemon_read) h ≡ []
      → content pipe_of (pipe_of p.from_daemon_read) h ≡ []
      → let told = write p.to_daemon_write exit_bytes in
        let h₀ = (told, os.answer h told) ∷ h in
        RepresentsAll pipe_of p h₀ qs
        × (content pipe_of (pipe_of p.to_daemon_read) h₀ ≡ exit_bytes)
        × (content pipe_of (pipe_of p.from_daemon_read) h₀ ≡ [])
  told_lem qs h all quiet silent = (
    kept_lem qs h _ all (λ pipe not_to not_from.
        rw (==_ne (pipe_of p.to_daemon_write) pipe (λ s. not_to (sym control.to ∙ s))) refl),
    rw (==_refl (pipe_of p.to_daemon_write) (pipe_of p.to_daemon_read) control.to, quiet) refl,
    rw
        (==_ne (pipe_of p.to_daemon_write) (pipe_of p.from_daemon_read)
          (λ s. control.apart (sym control.to ∙ s)))
        silent,
  )

  -- The dispatcher's turn for the message to exit.
  control_lem :
      (qs : ℕ → Queues) (h : World)
      → RepresentsAll pipe_of p h qs
      → content pipe_of (pipe_of p.to_daemon_read) h ≡ exit_bytes
      → content pipe_of (pipe_of p.from_daemon_read) h ≡ []
      → (h' : World) × (handle_event os p (true, control_token) false h ≡ some (true, h'))
        × RepresentsAll pipe_of p h' qs
        × (content pipe_of (pipe_of p.from_daemon_read) h' ≡ zero_bytes)
  unfolding handle_event handle_control
  control_lem qs h all told silent =
      let r = os.answer h (read p.to_daemon_read 4) in
      let h₁ = (read p.to_daemon_read 4, r) ∷ h in
      let put = write p.from_daemon_write zero_bytes in
      let (whole, bytes, left) =
        first_lem pipe_of os fifo p.to_daemon_read 4 exit_bytes [] h told refl in
      (
        (put, os.answer h₁ put) ∷ h₁,
        ground (arith, bytes),
        kept_lem qs h _ all (λ pipe not_to not_from.
            rw
              (
                ==_ne (pipe_of p.from_daemon_write) pipe (λ s. not_from (sym control.from ∙ s)),
                ==_ne (pipe_of p.to_daemon_read) pipe not_to,
              )
              refl),
        rw
            (
              ==_refl (pipe_of p.from_daemon_write) (pipe_of p.from_daemon_read) control.from,
              ==_ne (pipe_of p.to_daemon_read) (pipe_of p.from_daemon_read) control.apart,
              silent,
            )
            refl,
      )

-- A batch that reports an event that can be read.
abbrev pub has_readable : List (Bool × ℕ) → Bool
has_readable [] = false
has_readable ((readable, id) ∷ events) = if readable then true else has_readable events

-- What is left of a batch when the thread has answered the message to exit.
handle_events-answered :
    (os : Os) (p : Dispatcher) (events : List (Bool × ℕ)) (h : World)
    → handle_events os p events true h ≡ (if has_readable events then none else some (true, h))
unfolding handle_events handle_event
handle_events-answered os p [] h = refl
handle_events-answered os p ((true, id) ∷ events) h = refl
handle_events-answered os p ((false, id) ∷ events) h = handle_events-answered os p events h

-- Let the pipes between a dispatcher and its thread be empty, and the dispatcher write the message to
-- exit, and let the thread handle a batch that reports the control pipe, where the events before it
-- are requests whose responses have room. When the thread has handled it, these requests have been
-- served, the thread is to end, and the dispatcher's read, for which the deletion waits, gets the
-- four bytes of 0. From there on the deletion frees what the thread uses: where the rest of the batch
-- reports anything readable, the run is undefined, and otherwise the batch ends as it stands.
pub exit_handshake :
    (pipe_of : ℤ → ℕ) (os : Os) (p : Dispatcher) (fifo : IsFifo pipe_of os)
    → IsSeparate pipe_of os p
    → IsControlled pipe_of os p
    → (earlier later : List (Bool × ℕ)) (qs qs₁ : ℕ → Queues) (h : World)
    → RepresentsAll pipe_of p h qs
    → content pipe_of (pipe_of p.to_daemon_read) h ≡ []
    → content pipe_of (pipe_of p.from_daemon_read) h ≡ []
    → serve_batch fifo.capacity p earlier qs ≡ some qs₁
    → let told = write p.to_daemon_write exit_bytes in
      let h₀ = (told, os.answer h told) ∷ h in
      (h' : World) × (handle_events os p (earlier ++ (true, control_token) ∷ []) false h₀
        ≡ some (true, h'))
      × RepresentsAll pipe_of p h' qs₁
      × ((os.answer h' (read p.from_daemon_read 4)).bytes ≡ zero_bytes)
      × (handle_events os p (earlier ++ (true, control_token) ∷ later) false h₀
          ≡ (if has_readable later then none else some (true, h')))
unfolding handle_events
exit_handshake pipe_of os p fifo separate control earlier later qs qs₁ h all quiet silent first =
    let told = write p.to_daemon_write exit_bytes in
    let h₀ = (told, os.answer h told) ∷ h in
    let (all₀, holds₀, silent₀) = told_lem pipe_of os fifo p control qs h all quiet silent in
    let (h₁, run₁, all₁, keeps₁) =
      handle_events_refines pipe_of os p fifo separate earlier qs qs₁ h₀ all₀ first in
    let (h₂, run₂, all₂, answered) =
      control_lem pipe_of os fifo p control qs₁ h₁ all₁
        (keeps₁ (pipe_of p.to_daemon_read) control.to_outside ∙ holds₀)
        (keeps₁ (pipe_of p.from_daemon_read) control.from_outside ∙ silent₀) in
    let got = first_lem pipe_of os fifo p.from_daemon_read 4 zero_bytes [] h₂ answered refl in
    let joined = λ (rest : List (Bool × ℕ)).
      handle_events-append os p earlier ((true, control_token) ∷ rest) false false h₀ h₁ run₁ in
    (
      h₂,
      joined [] ∙ ground (arith, run₂),
      all₂,
      got.1,
      joined later ∙ ground (arith, run₂) ∙ handle_events-answered os p later h₂,
    )
