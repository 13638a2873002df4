-- ===== src/Package/Tests.antt =====
-- Objects that are lists of small numbers, pickled with their length in front.
use robot_ipc.Common.{
  ℕ, suc, ◌+◌, ◌≡◌, refl, arith, false, List, [], ◌∷◌, Option, none, some, pos, take, replicate,
  length,
}
use robot_ipc.Common.Bytes.{little_endian, little_endian-IsByteOrder}
use robot_ipc.Posix.{Os, M, World}
use robot_ipc.HostVariable.System.{new_shm}
use robot_ipc.HostFunction.Caller.{link_host_function, connect, connect_request, connect_response}
use robot_ipc.HostFunction.Caller
use robot_ipc.HostFunction.Receiver
use robot_ipc.HostFunction.Receiver.{Entry, attach_host_function_ex}
use robot_ipc.HostFunction.Remote.Messages.{Represents}
use robot_ipc.HostFunction.Tests.{name, dispatcher, world_of, result_of}
use robot_ipc.HostFunction.Tests.Pipes.{pipe_of, piped, piped-IsFifo}
use robot_ipc.Bindings.Solo.{Session, solo, IsReady, solo-VariableLaws}
use robot_ipc.Bindings.PyCaller
use robot_ipc.Bindings.PyDispatcher
use robot_ipc.Bindings.PyRemote.{empty}
use robot_ipc.Package.{PyResult, gives, throws, Objects, absent, validate_data_format}
use robot_ipc.Package.Variable.{HostVariable, write, read}
use robot_ipc.Package.Variable
use robot_ipc.Package.Variable.RoundTrip.{package_round_trip}
use robot_ipc.Package.Function.Calls.{HostFunctionCaller, HostFunctionDispatcher, ask, attach, new}
use robot_ipc.Package.Function.Attached.{package_call_answered}

abbrev Numbers : Type 0
Numbers = List ℕ

abbrev loads : List ℕ → Option Numbers
loads [] = none
loads (n ∷ bytes) = some (take n bytes)

abbrev first : List Numbers → Numbers
first [] = []
first (x ∷ xs) = x

abbrev objects : Objects Numbers
objects = record {
  dumps = λ x. some (length x ∷ x);
  loads = loads;
  tuple = first;
  dict = λ kwargs. [];
  positional = λ x. some (x ∷ []);
  keywords = λ x. some [];
  is_none = λ x. false;
}

abbrev session : Session
session = record { mem = new_shm (λ a. 0); now = 0 }

-- Three bytes in a variable of eight.
package_round_trip_example :
    (s₁ s₂ s₃ : Session) × (v v' : HostVariable Numbers) × (Variable.new
        (solo suc)
        objects
        (65 ∷ [])
        8
        absent
        session
      ≡ some (gives v, s₁))
    × (write (solo suc) objects v (5 ∷ 6 ∷ []) none s₁ ≡ some (gives tt, s₂))
    × (read (solo suc) objects v none s₂ ≡ some ((gives (5 ∷ 6 ∷ []), v'), s₃))
package_round_trip_example =
    package_round_trip (solo suc) objects IsReady absent (65 ∷ []) 8 (5 ∷ 6 ∷ []) session
      (solo-VariableLaws suc (λ t. omega arith) 8)
      (2 ∷ 5 ∷ 6 ∷ [], omega arith, omega arith, record { dumped = refl; loaded = λ rest. refl })

-- One more than the first number of the first argument.
abbrev next : List Numbers → List (List ℕ × Numbers) → PyResult Numbers
next [] kwargs = gives []
next ([] ∷ args) kwargs = gives []
next ((x ∷ xs) ∷ args) kwargs = gives ((x + 1) ∷ [])

abbrev os : Os
os = piped pipe_of

abbrev before : HostFunctionDispatcher
before = record {
  core = record { max_func_count = 2; handle = dispatcher 0; bindings = [] };
  callbacks = [];
}

abbrev attaching : M (PyResult (PyResult (Unit {0}) × HostFunctionDispatcher))
attaching = attach objects little_endian os before name next 12 4 absent absent (pos 64)

abbrev attached_world : World
attached_world = world_of (attaching [])

abbrev after : HostFunctionDispatcher
after = dispatcher_of (result_of (gives (gives tt, before)) (attaching []))
  where
    dispatcher_of : PyResult (PyResult (Unit {0}) × HostFunctionDispatcher) → HostFunctionDispatcher
    dispatcher_of (gives (result, d)) = d
    dispatcher_of (throws e) = before

attached_run : attaching [] ≡ some (gives (gives tt, after), attached_world)
unfolding attach PyDispatcher.attach attach_host_function_ex Receiver.try_to_open_pipe
    validate_data_format
attached_run = refl

abbrev making : M (PyResult (HostFunctionCaller Numbers))
making = new objects little_endian os name 12 4 absent absent

abbrev caller : HostFunctionCaller Numbers
caller = record {
  arg_format = none;
  ret_format = none;
  max_arg_size = 12;
  max_ret_size = 4;
  core = record {
    arg_size = 12;
    ret_size = 4;
    handle = record { address = pos 64; req_fd = pos 7; res_fd = pos 8; sz_arg = 12; sz_ret = 4 };
    buffer = replicate 12 0;
  };
}

made_run : making [] ≡ some (gives caller, world_of (making []))
unfolding new PyCaller.new link_host_function connect connect_request connect_response
    Caller.try_to_open_pipe validate_data_format
made_run = refl

abbrev entry : Entry
entry = after.core.handle.entries 0

package_call_answered_example :
    (c' : HostFunctionCaller Numbers) × (h' : World) × (ask objects little_endian os caller entry
        ((10 ∷ []) ∷ [])
        []
        []
      ≡ some ((gives (11 ∷ []), c'), h'))
    × Represents pipe_of entry h' empty
unfolding attach PyDispatcher.attach attach_host_function_ex Receiver.try_to_open_pipe
    validate_data_format
package_call_answered_example =
    package_call_answered pipe_of os objects little_endian absent absent 12 4 next before after
      caller name name (pos 64) [] attached_world [] (world_of (making [])) (piped-IsFifo pipe_of)
      little_endian-IsByteOrder refl attached_run made_run refl refl (λ e. omega (arith, e))
      ((10 ∷ []) ∷ []) [] (11 ∷ []) []
      (record { requests = refl; responses = refl; args = tt; rets = tt })
      (record {
        args_data = 1 ∷ 10 ∷ [];
        kwargs_data = 0 ∷ [];
        args_pickled = record { dumped = refl; loaded = λ rest. refl };
        kwargs_pickled = record { dumped = refl; loaded = λ rest. refl };
        short = omega arith;
        fits = omega arith;
        positional = refl;
        keywords = refl;
      })
      refl (refl, 1 ∷ 11 ∷ [], omega arith, record { dumped = refl; loaded = λ rest. refl })
      (omega arith)
