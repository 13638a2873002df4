-- ===== src/Bindings/PyRemote.antt =====
-- A call of `PyHostFunctionCaller` that a function of Python answers, of src/python_bindings.cpp,
-- over the library's two sides and the pipes between them.
pub mod Attached
use robot_ipc.Common.{
  ℕ, ◌<◌, ◌≤◌, ◌≡◌, inl, inr, refl, ◌∙◌, ap, arith, false, List, [], ◌∷◌, ◌++◌, some, ℤ, pos, ltb,
  ◌==◌, length, take, drop, take-append, take-length, Bool-cases, Option-cases, sym,
}
use robot_ipc.Posix.{Os, M, World, pure, ◌>>=◌, ◌>>◌}
use robot_ipc.HostFunction.Caller.{Caller, call_host_function, get_response_host_function}
use robot_ipc.HostFunction.Receiver.{Entry}
use robot_ipc.HostFunction.Receiver.Dispatch.{handle_call}
use robot_ipc.HostFunction.Remote.{IsFifo, Connected, send, perform}
use robot_ipc.HostFunction.Remote.Queues.{Queues, response_to}
use robot_ipc.HostFunction.Remote.Messages.{Represents}
use robot_ipc.HostFunction.Remote.Answering.{handle_call-Represents}
use robot_ipc.HostFunction.Remote.Turns.{send_lem, receive_lem}
use robot_ipc.Bindings.{padded, length-padded, Result, ok, raised}
use robot_ipc.Bindings.PyCaller.{PyHostFunctionCaller, call, get_response, filled, take-padded}
use robot_ipc.Bindings.PyCallback.{
  Answer, bytes, CallbackBinding, RunsCallback, dispatcher_callback, reply_with, reply_to, response,
  response-padded,
}

-- A call, the dispatcher's turn, and the response; an exception of the call ends it.
unfoldable pub ask :
    Os
    → PyHostFunctionCaller
    → Entry
    → (payload : List ℕ) → M (Result (List ℕ) × PyHostFunctionCaller)
ask os c e payload = do
  (sent, c₁) ← call os c payload
  elim sent [
    | raised err ↦ pure (raised err, c₁)
    | ok u ↦ (do handle_call os e; get_response os c₁)
  ]

abbrev pub empty : Queues
empty = record { requests = []; responses = [] }

-- What the function answers has the size that the entry declares.
reply_with-sized :
    (b : CallbackBinding) (payload ret : List ℕ)
    → reply_with b.ret_size (some payload) ≡ some ret
    → length ret ≡ b.ret_size
reply_with-sized b payload ret e = elim (Bool-cases (b.ret_size == 0)) [
  | inl nothing ↦ absurd (ground (arith, nothing, e))
  | inr some_bytes ↦ elim (Bool-cases (ltb b.ret_size (length payload))) [
    | inl long ↦ absurd (ground (arith, some_bytes, long, e))
    | inr fits ↦
        let le : length payload ≤ b.ret_size = ground (arith, fits) in
        let same : response b.ret_size payload ≡ ret = ground (arith, some_bytes, fits, e) in
        ap length (sym same)
        ∙ ap length (response-padded b.ret_size payload le)
        ∙ length-padded b.ret_size payload le
  ]
]

reply-sized :
    (b : CallbackBinding) (a : Answer) (ret : List ℕ)
    → reply_to b a ≡ some ret
    → length ret ≡ b.ret_size
reply-sized b Answer.is_none ret e = cc (e)
reply-sized b Answer.raises ret e = cc (e)
reply-sized b Answer.not_string ret e = cc (e)
reply-sized b (bytes payload) ret e = reply_with-sized b payload ret e
reply-sized b (Answer.text utf8) ret e = reply_with-sized b utf8 ret e

pub callback-sized :
    (e : Entry) (b : CallbackBinding) (args ret : List ℕ)
    → RunsCallback e b
    → e.foo args e.user_data ≡ some ret
    → length ret ≡ e.sz_ret
unfolding dispatcher_callback
callback-sized e b args ret runs found =
    reply-sized b (b.callback (take b.arg_size args)) ret (sym (runs.code args) ∙ found)
    ∙ sym runs.ret

-- The function's answer, where it gives bytes that fit.
answer_lem :
    (e : Entry) (b : CallbackBinding) (args answer : List ℕ)
    → RunsCallback e b
    → length args ≡ b.arg_size
    → b.callback args ≡ bytes answer
    → 0 < b.ret_size
    → length answer ≤ b.ret_size
    → response_to e (e.foo args e.user_data) ≡ padded b.ret_size answer ∷ []
unfolding dispatcher_callback
answer_lem e b args answer runs sized answers some_bytes fits =
    let whole : take b.arg_size args ≡ args = take-length b.arg_size args (sym sized) in
    let not_zero : b.ret_size == 0 ≡ false = ground (arith, some_bytes) in
    let not_long : ltb b.ret_size (length answer) ≡ false = ground (arith, fits) in
    let given : e.foo args e.user_data ≡ some (padded b.ret_size answer) =
      runs.code args
      ∙ ap (λ (x : List ℕ). reply_to b (b.callback x)) whole
      ∙ ap (reply_to b) answers
      ∙ rw (not_zero, not_long, response-padded b.ret_size answer fits) refl in
    rw (given, runs.ret, not_zero) refl

pub send-call :
    (os : Os) (p : Caller) (e : Entry) (arg : List ℕ) (h h' : World) (code : ℤ)
    → perform os p e (send arg) h ≡ some ((code, []), h')
    → call_host_function os p arg h ≡ some (code, h')
unfolding perform
send-call os p e arg h h' code run = elim (Option-cases (call_host_function os p arg h)) [
  | inl undefined ↦ absurd (ground (arith, undefined, run))
  | inr ((c, w), called) ↦ ground (arith, called, run)
]

call_lem :
    (os : Os) (c : PyHostFunctionCaller) (payload : List ℕ) (h h' : World)
    → c.handle.sz_arg ≡ c.arg_size
    → length payload ≤ c.arg_size
    → call_host_function os c.handle (padded c.arg_size payload) h ≡ some (pos 0, h')
    → call os c payload h ≡ some ((ok tt, record c { buffer = filled c payload }), h')
unfolding call
call_lem os c payload h h' same fits run =
    let not_long : ltb c.arg_size (length payload) ≡ false = ground (arith, fits) in
    let message : take c.handle.sz_arg (filled c payload) ≡ padded c.arg_size payload =
      ap (λ (n : ℕ). take n (filled c payload)) same ∙ take-padded c payload fits in
    ground (arith, not_long, message, run)

get_response_lem :
    (os : Os) (c : PyHostFunctionCaller) (ret : List ℕ) (h h' : World)
    → length ret ≡ c.ret_size
    → get_response_host_function os c.handle h ≡ some ((pos 0, ret), h')
    → get_response os c h
      ≡ some ((ok ret, record c { buffer = ret ++ drop (length ret) c.buffer }), h')
unfolding get_response
get_response_lem os c ret h h' sized run =
    ground (arith, run, take-append c.ret_size ret (drop (length ret) c.buffer) (sym sized))

-- What a call of an object of Python needs: the sizes of its handle are its own, as the constructor
-- sees to, and its handle is connected to an entry that runs a function of Python.
pub record IsJoined (pipe_of : ℤ → ℕ) (os : Os) (c : PyHostFunctionCaller) (e : Entry)
    (b : CallbackBinding) : Type 0 where
  pub arg : c.handle.sz_arg ≡ c.arg_size
  pub ret : c.handle.sz_ret ≡ c.ret_size
  pub connected : Connected pipe_of os c.handle e
  pub runs : RunsCallback e b

-- Over pipes that keep the order of their bytes and are empty before, a Python call of a function of
-- Python in another process, which answers the padded payload with bytes that fit into the size of
-- the result, gets these bytes, filled up with zeros, and leaves the pipes empty.
pub py_ask_answered :
    (pipe_of : ℤ → ℕ) (os : Os) (c : PyHostFunctionCaller) (e : Entry) (b : CallbackBinding)
    → IsFifo pipe_of os
    → IsJoined pipe_of os c e b
    → (payload answer : List ℕ) (h : World) → Represents pipe_of e h empty
    → length payload ≤ c.arg_size
    → b.callback (padded c.arg_size payload) ≡ bytes answer
    → 0 < c.ret_size
    → length answer ≤ c.ret_size
    → (c' : PyHostFunctionCaller) × (h' : World) × (ask os c e payload h
        ≡ some ((ok (padded c.ret_size answer), c'), h'))
      × Represents pipe_of e h' empty
unfolding ask perform get_response_host_function
py_ask_answered pipe_of os c e b fifo joined payload answer h rep fits answers some_bytes small =
    let con = joined.connected in
    let arg = padded c.arg_size payload in
    let ret = padded c.ret_size answer in
    let sized : length arg ≡ c.arg_size = length-padded c.arg_size payload fits in
    let same_ret : b.ret_size ≡ c.ret_size = sym joined.runs.ret ∙ sym con.same_ret ∙ joined.ret in
    let same_arg : c.arg_size ≡ e.sz_arg = sym joined.arg ∙ con.same_arg in
    let (h₁, sends, rep₁) =
      send_lem pipe_of os fifo c.handle e con empty h arg rep (sized ∙ same_arg)
        (omega (arith, sized, same_arg, con.fits_arg, fifo.holds)) in
    let (h₂, turn, rep₂) =
      handle_call-Represents pipe_of os fifo e con.apart con.whole [] [] arg h₁ rep₁ in
    let answered : response_to e (e.foo arg e.user_data) ≡ ret ∷ [] =
      answer_lem e b arg answer joined.runs (sized ∙ same_arg ∙ joined.runs.arg) answers
        (omega (arith, some_bytes, same_ret)) (omega (arith, small, same_ret))
      ∙ ap (λ (n : ℕ). padded n answer ∷ []) same_ret in
    let (h₃, receives, rep₃) =
      receive_lem pipe_of os fifo c.handle e con [] [] ret h₂ (rw answered at rep₂) in
    let called =
      call_lem os c payload h h₁ joined.arg fits (send-call os c.handle e arg h h₁ (pos 0) sends) in
    let c₁ = record c { buffer = filled c payload } in
    let got = get_response_lem os c₁ ret h₂ h₃ (length-padded c.ret_size answer small) receives in
    (
      record c₁ { buffer = ret ++ drop (length ret) c₁.buffer },
      h₃,
      ground (arith, called, turn, got),
      rep₃,
    )
