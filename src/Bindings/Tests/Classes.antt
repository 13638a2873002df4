-- ===== src/Bindings/Tests/Classes.antt =====
-- The classes of C++: a function that is attached, and a call of it; and what is said of types.
use robot_ipc.Common.{ℕ, ◌+◌, ◌≡◌, ◌↔◌, refl, arith, true, false, [], Option, some, pos}
use robot_ipc.Posix.{Os, World}
use robot_ipc.HostFunction.Caller.{
  Caller, link_host_function, connect, connect_request, connect_response,
}
use robot_ipc.HostFunction.Caller
use robot_ipc.Bindings.{ok}
use robot_ipc.HostFunction.Receiver.{
  Entry, Dispatcher, attach_host_function, attach_host_function_ex,
}
use robot_ipc.HostFunction.Receiver
use robot_ipc.HostFunction.Remote.Messages.{Represents}
use robot_ipc.HostFunction.Tests.{name, dispatcher, world_of, result_of}
use robot_ipc.HostFunction.Tests.Pipes.{pipe_of, piped, piped-IsFifo}
use robot_ipc.Bindings.PyRemote.{empty}
use robot_ipc.Bindings.Tests.{byte}
use robot_ipc.Bindings.Cpp
use robot_ipc.Bindings.Cpp.{Layout, IsTrivial}
use robot_ipc.Bindings.Cpp.Answered.{ask, cpp_ask_answered}
use robot_ipc.Bindings.Cpp.Traits.{
  TypeTraits, check_ipc_safety, layout_info, check-is_ipc_safe_type,
}

abbrev os : Os
os = piped pipe_of

abbrev next : ℕ → Option ℕ
next x = some (x + 1)

abbrev attached : Dispatcher
attached = (result_of (pos 9, dispatcher 1) (Cpp.attach os (dispatcher 1) name byte byte next [])).1

abbrev world : World
world = world_of (Cpp.attach os (dispatcher 1) name byte byte next [])

attached_run : Cpp.attach os (dispatcher 1) name byte byte next [] ≡ some ((pos 0, attached), world)
unfolding Cpp.attach attach_host_function attach_host_function_ex Receiver.try_to_open_pipe
attached_run = refl

abbrev caller : Caller
caller = record { address = pos 64; req_fd = pos 7; res_fd = pos 8; sz_arg = 1; sz_ret = 1 }

byte-IsTrivial : IsTrivial byte
byte-IsTrivial = record { sized = λ x. refl; copied = λ x. refl }

made_run :
    Cpp.new_caller os byte byte name []
    ≡ some (ok caller, world_of (Cpp.new_caller os byte byte name []))
unfolding Cpp.new_caller link_host_function connect connect_request connect_response
    Caller.try_to_open_pipe
made_run = refl

cpp_ask_answered_example :
    (h' : World) × (ask os byte byte caller (attached.entries 1) 41 99 []
      ≡ some ((pos 0, pos 0, 42), h'))
    × Represents pipe_of (attached.entries 1) h' empty
unfolding Cpp.attach attach_host_function attach_host_function_ex Receiver.try_to_open_pipe
cpp_ask_answered_example =
    cpp_ask_answered pipe_of os byte byte next (dispatcher 1) attached name name [] world []
      (world_of (Cpp.new_caller os byte byte name [])) caller (piped-IsFifo pipe_of) byte-IsTrivial
      byte-IsTrivial (omega arith) attached_run made_run refl refl (λ e. omega (arith, e)) 41 99 42
      [] (record { requests = refl; responses = refl; args = tt; rets = tt }) refl

-- A pointer.
abbrev pointer : TypeTraits
pointer = record {
  is_standard_layout = true;
  is_trivially_copyable = true;
  is_pointer = true;
  is_reference = false;
  is_trivially_destructible = true;
  has_unique_object_representations = true;
  size_of = 8;
  align_of = 8;
}

check-is_ipc_safe_type_at : (check_ipc_safety pointer ≡ []) ↔ ((layout_info pointer).is_safe ≡ true)
check-is_ipc_safe_type_at = check-is_ipc_safe_type pointer (λ e. cc (e))
