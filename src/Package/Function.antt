-- ===== src/Package/Function.antt =====
-- Calls of functions in src/robot_ipc/robot_ipc.py: the payload of a call, and the callback that the
-- dispatcher's thread runs.
pub mod Calls
pub mod Answered
pub mod Constructed
pub mod Attached
use robot_ipc.Common.{
  ℕ, Bool, true, false, not, ◌&&◌, List, [], ◌∷◌, Option, none, some, ℤ, ltb, if◌then◌else◌, length,
}
use robot_ipc.Common.Bytes.{ByteOrder}
use robot_ipc.Posix.{Os, M, pure, ◌>>=◌ as ◌andthen◌}
use robot_ipc.HostFunction.Receiver.{Entry}
use robot_ipc.Bindings.{Result, ok, raised}
use robot_ipc.Bindings.PyCaller
use robot_ipc.Bindings.PyCaller.{PyHostFunctionCaller}
use robot_ipc.Bindings.PyCallback.{Answer, CallbackBinding}
use robot_ipc.Bindings.PyDispatcher
use robot_ipc.Bindings.PyDispatcher.{PyHostFunctionDispatcher}
use robot_ipc.Package.{
  PyError, PyResult, gives, throws, ◌>>=◌, or_throw, Kwargs, Objects, Format, DataFormat,
  validate_data_format, encode_data_format, decode_data_format, encode_pickle_call,
  decode_pickle_call, pickle_error, value_error, type_error, runtime_error,
}
use robot_ipc.Package.Variable.{from_core, size_for}

module _ {Obj : Type 0} (o : Objects Obj) (order : ByteOrder) where
  -- What the callback makes of a result.
  abbrev pub fitting : (max_size : ℕ) → List ℕ → PyResult (List ℕ)
  fitting max_size payload =
      if ltb max_size (length payload) then throws value_error else gives payload

  abbrev pub encode_return : Option (Format Obj) → (max_sz_ret : ℕ) → Obj → PyResult (List ℕ)
  encode_return none max_sz_ret ret = do
    payload ← or_throw pickle_error (o.dumps ret)
    fitting max_sz_ret payload
  encode_return (some f) max_sz_ret ret = encode_data_format ret f max_sz_ret

  -- The payload of `__call__`; a typed caller wants one positional argument and no others.
  abbrev pub one_argument :
      Format Obj → (max_arg_size : ℕ) → List Obj → Kwargs Obj → PyResult (List ℕ)
  one_argument f max_arg_size (x ∷ []) [] = encode_data_format x f max_arg_size
  one_argument f max_arg_size args kwargs = throws value_error

  abbrev pub encode_call :
      Option (Format Obj) → (max_arg_size : ℕ) → List Obj → Kwargs Obj → PyResult (List ℕ)
  encode_call none max_arg_size args kwargs = encode_pickle_call o order args kwargs max_arg_size
  encode_call (some f) max_arg_size args kwargs = one_argument f max_arg_size args kwargs

  -- `foo(*args, **kwargs)` on what was decoded, or `foo(data)`.
  abbrev pub spread : (List Obj → Kwargs Obj → PyResult Obj) → Obj × Obj → PyResult Obj
  spread foo (args, kwargs) = do
    positional ← or_throw type_error (o.positional args)
    keywords ← or_throw type_error (o.keywords kwargs)
    foo positional keywords

  abbrev pub apply_to :
      (List Obj → Kwargs Obj → PyResult Obj) → Option (Format Obj) → List ℕ → PyResult Obj
  apply_to foo none raw = do decoded ← decode_pickle_call o order raw; spread foo decoded
  apply_to foo (some f) raw = do x ← decode_data_format raw f; foo (x ∷ []) []

  -- How the class below sees the callback's result.
  abbrev pub answer_bytes : PyResult (List ℕ) → Answer
  answer_bytes (throws e) = Answer.raises
  answer_bytes (gives payload) = Answer.bytes payload

  abbrev pub answer_of : Option (Format Obj) → (max_sz_ret : ℕ) → PyResult Obj → Answer
  answer_of ret_format max_sz_ret (throws e) = Answer.raises
  answer_of ret_format max_sz_ret (gives ret) =
      if o.is_none ret
      then Answer.is_none
      else answer_bytes (encode_return ret_format max_sz_ret ret)

  -- `_callback`.
  unfoldable pub callback :
      (List Obj → Kwargs Obj → PyResult Obj)
      → (arg_format ret_format : Option (Format Obj)) (max_sz_ret : ℕ) (raw : List ℕ) → Answer
  callback foo arg_format ret_format max_sz_ret raw =
      answer_of ret_format max_sz_ret (apply_to foo arg_format raw)
