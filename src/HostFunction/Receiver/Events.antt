-- ===== src/HostFunction/Receiver/Events.antt =====
-- What the dispatcher's thread does with an event.
use robot_ipc.Common.{
  ℕ, ◌+◌, inl, inr, ◌≡◌, refl, arith, List, [], ◌∷◌, ◌++◌, Option, none, some, ℤ, ◌==◌,
  if◌then◌else◌, take, Bool-cases,
}
use robot_ipc.Posix.{Os, World, Reply, malloc, free, write, read}
use robot_ipc.Posix.Balance.{frees}
use robot_ipc.HostFunction.Caller.{is_short}
use robot_ipc.HostFunction.Receiver.{Entry}
use robot_ipc.HostFunction.Receiver.Dispatch.{respond, handle_call}

-- The messages written in a run, with their descriptors, the last one first.
abbrev pub sent : World → List (ℤ × List ℕ)
sent [] = []
sent ((write fd bytes, r) ∷ h) = (fd, bytes) ∷ sent h
sent ((c, r) ∷ h) = sent h

-- The answer that a function owes to what was read for it: none where the read was short, where
-- the function returns NULL, or where it has no result.
abbrev pub owed : Entry → Option (List ℕ) → List (ℤ × List ℕ)
owed e none = []
owed e (some ret) = if e.sz_ret == 0 then [] else (e.res_fd, take e.sz_ret ret) ∷ []

abbrev pub answer_to : Entry → Reply → List (ℤ × List ℕ)
answer_to e got = if is_short got.ret e.sz_arg then [] else owed e (e.foo got.bytes e.user_data)

respond_lem :
    (os : Os) (e : Entry) (buffer : ℤ) (ret : Option (List ℕ)) (h : World)
    → (h' : World) × (respond os e buffer ret h ≡ some (tt, h'))
      × (sent h' ≡ owed e ret ++ sent h)
      × (frees h' ≡ frees h + 1)
unfolding respond
respond_lem os e buffer none h =
    ((free buffer, os.answer h (free buffer)) ∷ h, refl, refl, omega arith)
respond_lem os e buffer (some ret) h =
    let put = write e.res_fd (take e.sz_ret ret) in
    let h₁ = (put, os.answer h put) ∷ h in
    elim (Bool-cases (e.sz_ret == 0)) [
      | inl none_due ↦ (
        (free buffer, os.answer h (free buffer)) ∷ h,
        ground (arith, none_due),
        ground (arith, none_due),
        omega arith,
      )
      | inr due ↦ (
        (free buffer, os.answer h₁ (free buffer)) ∷ h₁,
        ground (arith, due),
        ground (arith, due),
        omega arith,
      )
    ]

-- For an event of a function the dispatcher reads one argument, sends exactly the answer that the
-- function gives to it, to that function's response pipe, and sends nothing where it owes none; and
-- the argument's buffer is freed on every branch.
pub handle_call_lem :
    (os : Os) (e : Entry) (h : World)
    → let h₁ = (malloc e.sz_arg, os.answer h (malloc e.sz_arg)) ∷ h in
      let got = os.answer h₁ (read e.req_fd e.sz_arg) in
      (h' : World) × (handle_call os e h ≡ some (tt, h'))
      × (sent h' ≡ answer_to e got ++ sent h)
      × (frees h' ≡ frees h + 1)
unfolding handle_call
handle_call_lem os e h =
    let m = os.answer h (malloc e.sz_arg) in
    let h₁ = (malloc e.sz_arg, m) ∷ h in
    let got = os.answer h₁ (read e.req_fd e.sz_arg) in
    let h₂ = (read e.req_fd e.sz_arg, got) ∷ h₁ in
    elim (Bool-cases (is_short got.ret e.sz_arg)) [
      | inl short ↦ (
        (free m.ret, os.answer h₂ (free m.ret)) ∷ h₂,
        ground (arith, short),
        ground (arith, short),
        omega arith,
      )
      | inr full ↦
          let (h', run, out, freed) = respond_lem os e m.ret (e.foo got.bytes e.user_data) h₂ in
          (h', ground (arith, full, run), ground (arith, full, out), ground (arith, freed))
    ]
