-- ===== src/Bindings/Tests/Asking.antt =====
-- A call that a function of Python answers, over pipes that work as pipe(7) says.
use robot_ipc.Common.{ℕ, ◌+◌, ◌≡◌, refl, arith, List, [], ◌∷◌, some, ℤ, pos, negsuc, replicate}
use robot_ipc.Posix.{Os, World}
use robot_ipc.HostFunction.Caller.{link_host_function, connect, connect_request, connect_response}
use robot_ipc.HostFunction.Caller
use robot_ipc.HostFunction.Receiver.{Entry, attach_host_function_ex}
use robot_ipc.HostFunction.Receiver
use robot_ipc.HostFunction.Tests.{name, dispatcher, world_of, result_of}
use robot_ipc.HostFunction.Tests.Pipes
use robot_ipc.Bindings.PyCaller
use robot_ipc.Bindings.PyDispatcher
use robot_ipc.Bindings.PyDispatcher.{PyHostFunctionDispatcher}
use robot_ipc.Bindings.{raised, attach_failed}
use robot_ipc.HostFunction.Remote.{Connected}
use robot_ipc.HostFunction.Remote.Messages.{Represents}
use robot_ipc.HostFunction.Tests.Pipes.{piped, piped-IsFifo}
use robot_ipc.Bindings.{padded, ok}
use robot_ipc.Bindings.PyCaller.{PyHostFunctionCaller}
use robot_ipc.Bindings.PyCallback.{Answer, is_none, bytes, CallbackBinding, RunsCallback}
use robot_ipc.Bindings.PyDispatcher.{callback_at}
use robot_ipc.Bindings.PyRemote.Attached.{py_attached_answered}
use robot_ipc.Bindings.PyRemote.{ask, empty, callback-sized, py_ask_answered}

abbrev pipe_of : ℤ → ℕ
pipe_of (pos n) = n
pipe_of (negsuc n) = 0

-- One more than the first byte.
abbrev next_byte : List ℕ → Answer
next_byte [] = is_none
next_byte (x ∷ xs) = bytes ((x + 1) ∷ [])

abbrev binding : CallbackBinding
binding = record { callback = next_byte; arg_size = 3; ret_size = 2 }

abbrev entry : Entry
entry = record {
  req_fd = pos 5;
  res_fd = pos 6;
  foo = callback_at binding;
  user_data = pos 64;
  owns_user_data = 0;
  sz_arg = 3;
  sz_ret = 2;
}

abbrev caller : PyHostFunctionCaller
caller = record {
  arg_size = 3;
  ret_size = 2;
  handle = record { address = pos 64; req_fd = pos 5; res_fd = pos 6; sz_arg = 3; sz_ret = 2 };
  buffer = replicate 3 0;
}

runs : RunsCallback entry binding
runs = record { code = λ args. refl; arg = refl; ret = refl }

connected : Connected pipe_of (piped pipe_of) caller.handle entry
connected = record {
  requests = refl;
  responses = refl;
  apart = λ e. omega (arith, e);
  same_arg = refl;
  same_ret = refl;
  fits_arg = omega arith;
  fits_ret = omega arith;
  whole = λ args ret found. callback-sized entry binding args ret runs found;
}

py_ask_answered_at :
    (c' : PyHostFunctionCaller) × (h' : World) × (ask (piped pipe_of) caller entry (10 ∷ []) []
      ≡ some ((ok (padded 2 (11 ∷ [])), c'), h'))
    × Represents pipe_of entry h' empty
py_ask_answered_at =
    py_ask_answered pipe_of (piped pipe_of) caller entry binding (piped-IsFifo pipe_of)
      (record { arg = refl; ret = refl; connected = connected; runs = runs }) (10 ∷ []) (11 ∷ []) []
      (record { requests = refl; responses = refl; args = tt; rets = tt }) (omega arith) refl
      (omega arith) (omega arith)

-- The same function, attached in one process and linked in another.
abbrev os : Os
os = piped Pipes.pipe_of

abbrev before : PyHostFunctionDispatcher
before = record { max_func_count = 2; handle = dispatcher 0; bindings = [] }

abbrev after : PyHostFunctionDispatcher
after =
    (result_of (raised attach_failed, before)
      (PyDispatcher.attach os before name binding (pos 64) [])).1

attached_run :
    PyDispatcher.attach os before name binding (pos 64) []
    ≡ some ((ok tt, after), world_of (PyDispatcher.attach os before name binding (pos 64) []))
unfolding PyDispatcher.attach attach_host_function_ex Receiver.try_to_open_pipe
attached_run = refl

abbrev linked : PyHostFunctionCaller
linked = record {
  arg_size = 3;
  ret_size = 2;
  handle = record { address = pos 64; req_fd = pos 7; res_fd = pos 8; sz_arg = 3; sz_ret = 2 };
  buffer = replicate 3 0;
}

made_run : PyCaller.new os name 3 2 [] ≡ some (ok linked, world_of (PyCaller.new os name 3 2 []))
unfolding PyCaller.new link_host_function connect connect_request connect_response
    Caller.try_to_open_pipe
made_run = refl

py_attached_answered_example :
    (c' : PyHostFunctionCaller) × (h' : World) × (ask os linked
        (after.handle.entries 0)
        (10 ∷ [])
        []
      ≡ some ((ok (padded 2 (11 ∷ [])), c'), h'))
    × Represents Pipes.pipe_of (after.handle.entries 0) h' empty
unfolding PyDispatcher.attach attach_host_function_ex Receiver.try_to_open_pipe
py_attached_answered_example =
    py_attached_answered Pipes.pipe_of os before after linked binding name name (pos 64) []
      (world_of (PyDispatcher.attach os before name binding (pos 64) [])) []
      (world_of (PyCaller.new os name 3 2 [])) (piped-IsFifo Pipes.pipe_of) refl attached_run
      made_run refl refl (λ e. omega (arith, e)) (10 ∷ []) (11 ∷ []) []
      (record { requests = refl; responses = refl; args = tt; rets = tt }) (omega arith) refl
      (omega arith) (omega arith)
