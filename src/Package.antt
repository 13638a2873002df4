-- ===== src/Package.antt =====
-- src/robot_ipc/robot_ipc.py: the Python package over the classes of src/python_bindings.cpp.
-- What pickle and ctypes do, and what `*` and `**` make of an object, are parameters.
pub mod Codec
pub mod Variable
pub mod Function
mod Tests
use robot_ipc.Common.{
  ℕ, ◌+◌, ◌^◌, ◌≡◌, Bool, true, false, not, List, ◌++◌, Option, none, some, ltb, if◌then◌else◌,
  length, take, drop,
}
use robot_ipc.Common.Bytes.{ByteOrder}
use robot_ipc.Bindings.{Error}

-- The exceptions: of the package itself, of `int.to_bytes`, of pickle, of the classes below, and of
-- a function that a user attached.
pub data PyError : Type 0 where
  type_error value_error overflow_error pickle_error user_error : PyError
  runtime_error : Error → PyError

pub data PyResult (A : Type 0) : Type 0 where
  gives : A → PyResult A
  throws : PyError → PyResult A

infixl 5 ◌>>=◌
abbrev pub ◌>>=◌ : {A B : Type 0} → PyResult A → (A → PyResult B) → PyResult B
gives a >>= f = f a
throws e >>= f = throws e

abbrev pub or_throw : {A : Type 0} → PyError → Option A → PyResult A
or_throw e none = throws e
or_throw e (some a) = gives a

abbrev pub Kwargs : Type 0 → Type 0
Kwargs Obj = List (List ℕ × Obj)

-- `pickle.dumps` and `pickle.loads`, tuples and dicts, and what `*` and `**` take from an object.
pub record Objects (Obj : Type 0) : Type 0 where
  pub dumps : Obj → Option (List ℕ)
  pub loads : List ℕ → Option Obj
  pub tuple : List Obj → Obj
  pub dict : Kwargs Obj → Obj
  pub positional : Obj → Option (List Obj)
  pub keywords : Obj → Option (Kwargs Obj)
  pub is_none : Obj → Bool

-- A subclass of `ctypes.Structure`: `ctypes.sizeof`, `isinstance`, and the copies of the bytes.
pub record Format (Obj : Type 0) : Type 0 where
  pub size : ℕ
  pub is_instance : Obj → Bool
  pub string_at : Obj → List ℕ
  pub from_buffer_copy : List ℕ → Obj

-- The argument `data_format`: None, a subclass, or something else.
pub data DataFormat (Obj : Type 0) : Type 0 where
  absent something_else : DataFormat Obj
  structure : Format Obj → DataFormat Obj

-- `_SIZE_FIELD_BYTES`, the size of `size_t`.
abbrev pub size_field_bytes : ℕ
size_field_bytes = 8

module _ {Obj : Type 0} where
  unfoldable pub validate_data_format : DataFormat Obj → PyResult (Option (Format Obj))
  validate_data_format absent = gives none
  validate_data_format something_else = throws type_error
  validate_data_format (structure f) = gives (some f)

  unfoldable pub encode_data_format : Obj → Format Obj → (target_size : ℕ) → PyResult (List ℕ)
  encode_data_format x f target_size =
      if not (f.is_instance x)
      then throws type_error
      else if ltb target_size (length (f.string_at x))
      then throws value_error
      else gives (f.string_at x)

  -- `from_buffer_copy` refuses a buffer that is too small.
  unfoldable pub decode_data_format : List ℕ → Format Obj → PyResult Obj
  decode_data_format raw f =
      let front = take f.size raw in
      if ltb (length front) f.size then throws value_error else gives (f.from_buffer_copy front)

  -- What `read` and `get_response` make of the bytes.
  abbrev pub decode_with : Objects Obj → Option (Format Obj) → List ℕ → PyResult Obj
  decode_with o none raw = or_throw pickle_error (o.loads raw)
  decode_with o (some f) raw = decode_data_format raw f

  module _ (o : Objects Obj) (order : ByteOrder) where
    unfoldable pub encode_pickle_call :
        List Obj → Kwargs Obj → (target_size : ℕ) → PyResult (List ℕ)
    encode_pickle_call args kwargs target_size = do
      args_data ← or_throw pickle_error (o.dumps (o.tuple args))
      kwargs_data ← or_throw pickle_error (o.dumps (o.dict kwargs))
      let size_field = order.to_bytes size_field_bytes (length args_data)
      let payload = size_field ++ (args_data ++ kwargs_data)
      if ltb (length args_data) (256 ^ size_field_bytes)
          then (if ltb target_size (length payload) then throws value_error else gives payload)
          else throws overflow_error

    unfoldable pub decode_pickle_call : List ℕ → PyResult (Obj × Obj)
    decode_pickle_call raw = do
      let args_size = order.from_bytes (take size_field_bytes raw)
      args ← or_throw pickle_error (o.loads (take args_size (drop size_field_bytes raw)))
      kwargs ← or_throw pickle_error (o.loads (drop (size_field_bytes + args_size) raw))
      gives (args, kwargs)
