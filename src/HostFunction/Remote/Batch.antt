-- ===== src/HostFunction/Remote/Batch.antt =====
-- Several functions of one dispatcher: a batch of events of `__host_function_dispatcher` in
-- src/host_function_receiver.c.
use robot_ipc.Common.{
  ℕ, ◌≤◌, ◌<◌, ◌≡◌, ◌≢◌, inl, inr, refl, ◌∙◌, ap, arith, Bool, true, false, List, [], ◌∷◌, ◌++◌,
  Option, none, some, ℤ, ◌==◌, ==_iff, subst, if◌then◌else◌, ltb, leb, length, update, Bool-cases,
  Option-cases,
}
use robot_ipc.Posix.{Os, World}
use robot_ipc.HostFunction.Receiver.{Entry, Dispatcher}
use robot_ipc.HostFunction.Receiver.Dispatch.{
  control_token, handle_call, handle_event, handle_events,
}
use robot_ipc.HostFunction.Remote.{content, IsFifo}
use robot_ipc.HostFunction.Remote.Queues.{Queues, response_to}
use robot_ipc.HostFunction.Remote.Messages.{concat, Each, Represents}
use robot_ipc.HostFunction.Remote.Answering.{handle_call-Represents, handle_call-content}

-- Every function has two pipes of its own, and returns as many bytes as were declared. There are
-- fewer functions than the token of the control pipe says.
pub record IsSeparate (pipe_of : ℤ → ℕ) (os : Os) (p : Dispatcher) : Type 0 where
  pub count : p.cnt_func ≤ control_token
  pub apart : (i : ℕ) → i < p.cnt_func → pipe_of (p.entries i).req_fd ≢ pipe_of (p.entries i).res_fd
  pub others :
      (i j : ℕ)
      → i < p.cnt_func
      → j < p.cnt_func
      → i ≢ j
      → (pipe_of (p.entries i).req_fd ≢ pipe_of (p.entries j).req_fd)
        × (pipe_of (p.entries i).req_fd ≢ pipe_of (p.entries j).res_fd)
        × (pipe_of (p.entries i).res_fd ≢ pipe_of (p.entries j).req_fd)
        × (pipe_of (p.entries i).res_fd ≢ pipe_of (p.entries j).res_fd)
  pub fits :
      (i : ℕ)
      → i < p.cnt_func
      → ((p.entries i).sz_arg ≤ os.pipe_buf) × ((p.entries i).sz_ret ≤ os.pipe_buf)
  pub whole :
      (i : ℕ)
      → i < p.cnt_func
      → (args ret : List ℕ) → (p.entries i).foo args (p.entries i).user_data ≡ some ret
      → length ret ≡ (p.entries i).sz_ret

-- The queues of each function are in its own pipes.
abbrev pub RepresentsAll : (ℤ → ℕ) → Dispatcher → World → (ℕ → Queues) → Type 0
RepresentsAll pipe_of p h qs = (i : ℕ) → i < p.cnt_func → Represents pipe_of (p.entries i) h (qs i)

-- A pipe of no function, and a run that changes no such pipe.
abbrev pub IsOutside : (ℤ → ℕ) → Dispatcher → (pipe : ℕ) → Type 0
IsOutside pipe_of p pipe =
    (i : ℕ)
    → i < p.cnt_func
    → (pipe_of (p.entries i).req_fd ≢ pipe) × (pipe_of (p.entries i).res_fd ≢ pipe)

abbrev pub KeepsOutside : (ℤ → ℕ) → Dispatcher → (h h' : World) → Type 0
KeepsOutside pipe_of p h h' =
    (pipe : ℕ) → IsOutside pipe_of p pipe → content pipe_of pipe h' ≡ content pipe_of pipe h

-- The function `id` serves its first request; `none` where it has none, or where the write of the
-- response would wait.
abbrev pub serve_at :
    (capacity : ℕ)
    → Entry
    → (id : ℕ) → (qs : ℕ → Queues) → (requests : List (List ℕ)) → Option (ℕ → Queues)
serve_at capacity e id qs [] = none
serve_at capacity e id qs (arg ∷ requests) =
    let later = (qs id).responses ++ response_to e (e.foo arg e.user_data) in
    if leb (length (concat later)) capacity
    then some (update qs id (record { requests = requests; responses = later }))
    else none

-- An event that is not readable is passed over; `none` for one of no function.
abbrev pub serve_event : (capacity : ℕ) → Dispatcher → Bool × ℕ → (ℕ → Queues) → Option (ℕ → Queues)
serve_event capacity p (readable, id) qs =
    if readable
    then (if ltb id p.cnt_func
        then serve_at capacity (p.entries id) id qs (qs id).requests
        else none)
    else some qs

unfoldable pub serve_batch :
    (capacity : ℕ) → Dispatcher → List (Bool × ℕ) → (ℕ → Queues) → Option (ℕ → Queues)
serve_batch capacity p [] qs = some qs
serve_batch capacity p (event ∷ events) qs = elim (serve_event capacity p event qs) [
  | none ↦ none
  | some qs₁ ↦ serve_batch capacity p events qs₁
]

module _ (pipe_of : ℤ → ℕ) (os : Os) (fifo : IsFifo pipe_of os) (p : Dispatcher)
    (separate : IsSeparate pipe_of os p) where
  -- The turn of one function leaves the queues of the others alone.
  others_lem :
      (id : ℕ) (q : Queues) (h h' : World) (qs : ℕ → Queues)
      → id < p.cnt_func
      → RepresentsAll pipe_of p h qs
      → handle_call os (p.entries id) h ≡ some (tt, h')
      → Represents pipe_of (p.entries id) h' q
      → RepresentsAll pipe_of p h' (update qs id q)
  others_lem id q h h' qs below all run own i bi = elim (Bool-cases (id == i)) [
    | inl same ↦
        rw same
          (subst (λ (j : ℕ). Represents pipe_of (p.entries j) h' q) ((==_iff id i).0 same) own)
    | inr other ↦
        let (ii, io, oi, oo) =
          separate.others id i below bi (λ s. ground (arith, s, other, ==_iff id i)) in
        let rep = all i bi in
        let e = p.entries i in
        rw other (record {
          requests =
              handle_call-content pipe_of os (p.entries id) (pipe_of e.req_fd) ii oi h h' run
              ∙ rep.requests;
          responses =
              handle_call-content pipe_of os (p.entries id) (pipe_of e.res_fd) io oo h h' run
              ∙ rep.responses;
          args = rep.args;
          rets = rep.rets;
        })
  ]

  -- A function's first request, with its queues as they are.
  serve_at_lem :
      (id : ℕ) (requests : List (List ℕ)) (qs qs' : ℕ → Queues) (h : World)
      → id < p.cnt_func
      → RepresentsAll pipe_of p h qs
      → (qs id).requests ≡ requests
      → serve_at fifo.capacity (p.entries id) id qs requests ≡ some qs'
      → (h' : World) × (handle_call os (p.entries id) h ≡ some (tt, h'))
        × RepresentsAll pipe_of p h' qs'
  serve_at_lem id [] qs qs' h below all held found = cc (found)
  serve_at_lem id (arg ∷ requests) qs qs' h below all held found =
      let rep = all id below in
      let e = p.entries id in
      let (h', run, own) =
        handle_call-Represents pipe_of os fifo e (separate.apart id below) (separate.whole id below)
          requests (qs id).responses arg h
          (record {
            requests = rep.requests ∙ ap concat held;
            responses = rep.responses;
            args = subst (Each e.sz_arg) held rep.args;
            rets = rep.rets;
          }) in
      let later = (qs id).responses ++ response_to e (e.foo arg e.user_data) in
      let all' = others_lem id _ h h' qs below all run own in
      elim (Bool-cases (leb (length (concat later)) fifo.capacity)) [
        | inr full ↦ absurd (ground (arith, full, found))
        | inl room ↦ (h', run, ground (arith, room, found, all'))
      ]

  event_lem :
      (event : Bool × ℕ) (qs qs' : ℕ → Queues) (h : World)
      → RepresentsAll pipe_of p h qs
      → serve_event fifo.capacity p event qs ≡ some qs'
      → (h' : World) × (handle_event os p event false h ≡ some (false, h'))
        × RepresentsAll pipe_of p h' qs'
        × KeepsOutside pipe_of p h h'
  unfolding handle_event
  event_lem (false, id) qs qs' h all found = (h, refl, ground (arith, found, all), λ pipe out. refl)
  event_lem (true, id) qs qs' h all found = elim (Bool-cases (ltb id p.cnt_func)) [
    | inr beyond ↦ absurd (ground (arith, beyond, found))
    | inl below ↦
        let lt : id < p.cnt_func = ground (arith, below) in
        let (h', run, all') =
          serve_at_lem id (qs id).requests qs qs' h lt all refl (ground (arith, below, found)) in
        (
          h',
          ground (arith, run, lt, separate.count),
          all',
          λ pipe out.
              handle_call-content pipe_of os (p.entries id) pipe (out id lt).0 (out id lt).1 h h'
                run,
        )
  ]

-- Over pipes that keep the order of their bytes and hold `capacity` of them, a batch of events of a
-- dispatcher, each function with pipes of its own, serves the queues as the events say, where every
-- readable event is of a function that has a request, and whose pipe of responses has room for the
-- response, so that the thread never waits: the batch runs to its end without a reason for the
-- thread to end, each readable event moves the first request of its own function to that function's
-- responses, no function's turn changes what another one holds, and a pipe of no function is left
-- alone.
pub handle_events_refines :
    (pipe_of : ℤ → ℕ) (os : Os) (p : Dispatcher) (fifo : IsFifo pipe_of os)
    → IsSeparate pipe_of os p
    → (events : List (Bool × ℕ)) (qs qs' : ℕ → Queues) (h : World) → RepresentsAll pipe_of p h qs
    → serve_batch fifo.capacity p events qs ≡ some qs'
    → (h' : World) × (handle_events os p events false h ≡ some (false, h'))
      × RepresentsAll pipe_of p h' qs'
      × KeepsOutside pipe_of p h h'
unfolding serve_batch handle_events
handle_events_refines pipe_of os p fifo separate [] qs qs' h all found =
    (h, refl, ground (arith, found, all), λ pipe out. refl)
handle_events_refines pipe_of os p fifo separate (event ∷ events) qs qs' h all found =
    elim (Option-cases (serve_event fifo.capacity p event qs)) [
      | inl odd ↦ absurd (ground (arith, odd, found))
      | inr (qs₁, first) ↦
          let (h₁, run, all₁, keeps₁) =
            event_lem pipe_of os fifo p separate event qs qs₁ h all first in
          let (h', runs, all', keeps) =
            handle_events_refines pipe_of os p fifo separate events qs₁ qs' h₁ all₁
              (ground (arith, first, found)) in
          (h', ground (arith, run, runs), all', λ pipe out. keeps pipe out ∙ keeps₁ pipe out)
    ]
