-- ===== src/Bindings/Tests.antt =====
-- The classes on a variable of eight bytes, and on a system that answers every call.
mod Asking
mod Classes
use robot_ipc.Common.{
  ℕ, suc, ◌<◌, ◌≤◌, ◌≡◌, ◌⊎◌, refl, arith, List, [], ◌∷◌, ◌++◌, some, pos, length, replicate,
}
use robot_ipc.Posix.{World, write}
use robot_ipc.HostVariable.System.{new_shm}
use robot_ipc.HostVariable.Alone.RoundTrip.{new_shm-IsQuiet}
use robot_ipc.HostFunction.Tests.{os, name, entry, dispatcher, world_of, result_of}
use robot_ipc.HostFunction.Receiver.{Entry}
use robot_ipc.Bindings.{
  Result, ok, raised, argument_exceeds, call_failed, attach_failed, payload_exceeds_size,
  payload_shorter,
}
use robot_ipc.Bindings.Solo.{Session, solo, IsReady, solo-VariableLaws}
use robot_ipc.Bindings.PyVariable
use robot_ipc.Bindings.PyVariable.Machine.{py_write_then_read}
use robot_ipc.Bindings.PyVariable.{PyHostVariable, wrote, py_write_guarded, py_round_trip}
use robot_ipc.Bindings.PyCaller
use robot_ipc.Bindings.PyCaller.{PyHostFunctionCaller, py_call-sends}
use robot_ipc.Bindings.PyCallback.{bytes, CallbackBinding, dispatcher_callback}
use robot_ipc.Bindings.PyDispatcher
use robot_ipc.Bindings.PyDispatcher.{PyHostFunctionDispatcher, IsBound, py_attach-IsBound}
use robot_ipc.Bindings.Cpp
use robot_ipc.Bindings.Cpp.{Layout, IsTrivial, cpp_round_trip}

abbrev session : Session
session = record { mem = new_shm (λ a. 0); now = 0 }

abbrev payload : List ℕ
payload = 1 ∷ 2 ∷ 3 ∷ []

abbrev variable : PyHostVariable
variable = record { name = name; size = 2; buffer = 0 ∷ 0 ∷ [] }

-- Three bytes do not fit in two.
py_write_guarded_example :
    ((n : ℕ) × (n ≤ 2)
      × (n ≤ 3)
      × (◌≡◌ {A = ℕ} 0 0 ⊎ (n ≡ 0))
      × (PyVariable.write (solo suc) variable payload 0 session
          ≡ wrote (solo suc) ((solo suc).write payload 2 n session)))
    ⊎ ((PyVariable.write (solo suc) variable payload 0 session
          ≡ some (raised payload_exceeds_size, session))
        ⊎ (PyVariable.write (solo suc) variable payload 0 session
            ≡ some (raised payload_shorter, session)))
py_write_guarded_example = py_write_guarded (solo suc) variable payload 0 session

py_round_trip_at :
    (s' s₂ s₃ : Session) × (v v' : PyHostVariable) × (PyVariable.new (solo suc) name 8 session
      ≡ some (ok v, s'))
    × (PyVariable.write (solo suc) v payload 0 s' ≡ some (ok tt, s₂))
    × (PyVariable.read (solo suc) v 3 s₂ ≡ some ((ok payload, v'), s₃))
py_round_trip_at =
    py_round_trip (solo suc) IsReady 8 (solo-VariableLaws suc (λ t. omega arith) 8) name payload
      session (omega arith) (omega arith)

abbrev wide : PyHostVariable
wide = record { name = name; size = 8; buffer = replicate 8 0 }

py_write_then_read_example :
    ((8 < 3)
      × (PyVariable.write (solo suc) wide payload 0 session
          ≡ some (raised payload_exceeds_size, session)))
    ⊎ (((3 < 3)
          × (PyVariable.write (solo suc) wide payload 0 session
              ≡ some (raised payload_shorter, session)))
        ⊎ ((3 ≤ 8)
            × (3 ≤ 3)
            × (s' s'' : Session) × (v' : PyHostVariable) × (rest : List ℕ) × (PyVariable.write
                  (solo suc)
                  wide
                  payload
                  0
                  session
                ≡ some (ok tt, s'))
            × (PyVariable.read (solo suc) wide 0 s' ≡ some ((ok (payload ++ rest), v'), s''))
            × (length rest ≡ 5)
            × IsReady s''))
py_write_then_read_example =
    py_write_then_read suc (λ t. omega arith) wide payload 0 session
      (new_shm-IsQuiet (λ a. 0), omega arith)

-- A byte as a type of C++.
abbrev byte : Layout ℕ
byte = record { size_of = 1; to_bytes = λ x. x ∷ []; from_bytes = λ xs. first xs }
  where
    first : List ℕ → ℕ
    first [] = 0
    first (x ∷ xs) = x

cpp_round_trip_at :
    (s₁ s₂ s₃ : Session) × (Cpp.new_variable (solo suc) byte name session ≡ some (ok name, s₁))
    × (Cpp.write (solo suc) byte 7 s₁ ≡ some (pos 0, s₂))
    × (Cpp.read (solo suc) byte 9 s₂ ≡ some ((pos 0, 7), s₃))
cpp_round_trip_at =
    cpp_round_trip (solo suc) byte IsReady (record { sized = λ x. refl; copied = λ x. refl })
      (solo-VariableLaws suc (λ t. omega arith) 1) name 7 9 session

-- An object that has sent a longer payload before.
abbrev caller : PyHostFunctionCaller
caller = record {
  arg_size = 4;
  ret_size = 1;
  handle = record { address = pos 64; req_fd = pos 5; res_fd = pos 6; sz_arg = 4; sz_ret = 1 };
  buffer = 9 ∷ 9 ∷ 9 ∷ 9 ∷ [];
}

py_call-sends_example :
    let message = write (pos 5) (1 ∷ 2 ∷ 3 ∷ 0 ∷ []) in
    (result : Result (Unit {0})) × (c' : PyHostFunctionCaller) × (h' : World) × (PyCaller.call os
        caller payload []
      ≡ some ((result, c'), h'))
    × (c'.handle ≡ caller.handle)
    × (((4 < 3) × (result ≡ raised argument_exceeds) × (h' ≡ []))
        ⊎ ((3 ≤ 4) × (h' ≡ (message, os.answer [] message) ∷ []) × (result ≡ raised call_failed)))
py_call-sends_example = py_call-sends os caller payload [] refl

-- A function of two bytes that gives them back.
abbrev echo : CallbackBinding
echo = record { callback = λ args. bytes args; arg_size = 2; ret_size = 3 }

abbrev echoing : Entry
echoing = record entry {
  foo = λ args user. dispatcher_callback args (some echo);
  sz_arg = 2;
  sz_ret = 3;
}

abbrev empty : PyHostFunctionDispatcher
empty = record { max_func_count = 2; handle = dispatcher 0; bindings = [] }

abbrev attached : PyHostFunctionDispatcher
attached =
    (result_of (raised attach_failed, empty) (PyDispatcher.attach os empty name echo (pos 64) [])).1

abbrev attached_world : World
attached_world = world_of (PyDispatcher.attach os empty name echo (pos 64) [])

attached_run :
    PyDispatcher.attach os empty name echo (pos 64) [] ≡ some ((ok tt, attached), attached_world)
unfolding PyDispatcher.attach robot_ipc.HostFunction.Receiver.attach_host_function_ex
    robot_ipc.HostFunction.Receiver.try_to_open_pipe
attached_run = refl

py_attach-IsBound_example :
    IsBound attached × ((ok tt ≡ raised attach_failed) ⊎ (attached.bindings ≡ echo ∷ []))
py_attach-IsBound_example =
    py_attach-IsBound os empty attached name echo (pos 64) [] attached_world (ok tt) refl
      (record { counted = refl; runs = λ i b found. cc (found) }) attached_run
