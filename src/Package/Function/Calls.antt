-- ===== src/Package/Function/Calls.antt =====
-- `HostFunctionCaller` and `HostFunctionDispatcher` of src/robot_ipc/robot_ipc.py.
use robot_ipc.Common.{ℕ, List, [], ◌∷◌, ◌++◌, Option, ℤ}
use robot_ipc.Common.Bytes.{ByteOrder}
use robot_ipc.Posix.{Os, M, pure, ◌>>=◌, ◌>>◌}
use robot_ipc.HostFunction.Receiver.{Entry}
use robot_ipc.HostFunction.Receiver.Dispatch.{handle_call}
use robot_ipc.Bindings.{Result, ok, raised}
use robot_ipc.Bindings.PyCaller
use robot_ipc.Bindings.PyCaller.{PyHostFunctionCaller}
use robot_ipc.Bindings.PyCallback.{Answer}
use robot_ipc.Bindings.PyDispatcher
use robot_ipc.Bindings.PyDispatcher.{PyHostFunctionDispatcher}
use robot_ipc.Package.{
  PyResult, gives, throws, Kwargs, Objects, Format, DataFormat, validate_data_format, decode_with,
  runtime_error,
}
use robot_ipc.Package.Variable.{from_core, size_for}
use robot_ipc.Package.Function.{encode_call, callback}

pub record HostFunctionCaller (Obj : Type 0) : Type 0 where
  pub arg_format : Option (Format Obj)
  pub ret_format : Option (Format Obj)
  pub max_arg_size : ℕ
  pub max_ret_size : ℕ
  pub core : PyHostFunctionCaller

-- `callbacks` is `_callbacks`.
pub record HostFunctionDispatcher : Type 0 where
  pub core : PyHostFunctionDispatcher
  pub callbacks : List (List ℕ → Answer)

-- Two formats are validated, the first one first.
abbrev pub validated :
    {Obj A : Type 0}
    → (arg_format ret_format : DataFormat Obj)
    → (Option (Format Obj) → Option (Format Obj) → M (PyResult A))
    → M (PyResult A)
validated arg_format ret_format next = elim (validate_data_format arg_format) [
  | throws e ↦ pure (throws e)
  | gives f ↦ elim (validate_data_format ret_format) [
    | throws e ↦ pure (throws e)
    | gives g ↦ next f g
  ]
]

module _ {Obj : Type 0} (o : Objects Obj) (order : ByteOrder) (os : Os) where
  abbrev pub caller_of :
      (f g : Option (Format Obj)) (max_arg_size max_ret_size : ℕ)
      → Result PyHostFunctionCaller
      → PyResult (HostFunctionCaller Obj)
  caller_of f g max_arg_size max_ret_size (raised e) = throws (runtime_error e)
  caller_of f g max_arg_size max_ret_size (ok core) = gives (record {
    arg_format = f;
    ret_format = g;
    max_arg_size = max_arg_size;
    max_ret_size = max_ret_size;
    core = core;
  })

  unfoldable pub new :
      (name : List ℕ) (max_arg_size max_ret_size : ℕ) (arg_format ret_format : DataFormat Obj)
      → M (PyResult (HostFunctionCaller Obj))
  unfolding validate_data_format
  new name max_arg_size max_ret_size arg_format ret_format = validated arg_format ret_format (λ f g.
      (do
        let arg_size = size_for f max_arg_size
        let ret_size = size_for g max_ret_size
        core ← PyCaller.new os name arg_size ret_size
        pure (caller_of f g arg_size ret_size core)))

  -- `__call__`.
  unfoldable pub call :
      HostFunctionCaller Obj
      → List Obj
      → Kwargs Obj
      → M (PyResult (Unit {0}) × HostFunctionCaller Obj)
  call c args kwargs = elim (encode_call o order c.arg_format c.max_arg_size args kwargs) [
    | throws e ↦ pure (throws e, c)
    | gives payload ↦ (do
      (result, core) ← PyCaller.call os c.core payload
      pure (from_core result, record c { core = core }))
  ]

  abbrev pub received : Option (Format Obj) → Result (List ℕ) → PyResult Obj
  received g (raised e) = throws (runtime_error e)
  received g (ok raw) = decode_with o g raw

  unfoldable pub get_response : HostFunctionCaller Obj → M (PyResult Obj × HostFunctionCaller Obj)
  get_response c = do
    (result, core) ← PyCaller.get_response os c.core
    pure (received c.ret_format result, record c { core = core })

  -- `HostFunctionDispatcher.__init__`.
  unfoldable pub new_dispatcher :
      (entries : ℕ → Entry) (max_func_count : ℕ) → M (PyResult HostFunctionDispatcher)
  new_dispatcher entries max_func_count = do
    made ← PyDispatcher.new os entries max_func_count
    elim made [
      | raised e ↦ pure (throws (runtime_error e))
      | ok core ↦ pure (gives (record { core = core; callbacks = [] }))
    ]

  -- The callback is kept before the class below is asked; `address` is where its binding stands.
  unfoldable pub attach :
      HostFunctionDispatcher
      → (name : List ℕ) → (foo : List Obj → Kwargs Obj → PyResult Obj)
      → (max_sz_args max_sz_ret : ℕ) (arg_format ret_format : DataFormat Obj) (address : ℤ)
      → M (PyResult (PyResult (Unit {0}) × HostFunctionDispatcher))
  unfolding validate_data_format
  attach d name foo max_sz_args max_sz_ret arg_format ret_format address =
      validated arg_format ret_format (λ f g. (do
        let sz_ret = size_for g max_sz_ret
        let run = callback o order foo f g sz_ret
        (result, core) ←
            PyDispatcher.attach os d.core name
              (record { callback = run; arg_size = size_for f max_sz_args; ret_size = sz_ret })
              address
        pure (
            gives (from_core result, record { core = core; callbacks = d.callbacks ++ run ∷ [] }))))

  unfoldable pub start : HostFunctionDispatcher → M (PyResult (Unit {0}))
  start d = do result ← PyDispatcher.start os d.core; pure (from_core result)

  -- A call, the dispatcher's turn, and the response; an exception of the call ends it.
  unfoldable pub ask :
      HostFunctionCaller Obj
      → Entry
      → List Obj
      → Kwargs Obj
      → M (PyResult Obj × HostFunctionCaller Obj)
  ask c e args kwargs = do
    (sent, c₁) ← call c args kwargs
    elim sent [
      | throws err ↦ pure (throws err, c₁)
      | gives u ↦ (do handle_call os e; get_response c₁)
    ]
