-- ===== src/Package/Variable.antt =====
-- `HostVariable` of src/robot_ipc/robot_ipc.py.
pub mod RoundTrip
use robot_ipc.Common.{
  ℕ, ◌+◌, ◌-◌, ◌≤◌, ◌<◌, ◌≡◌, refl, sym, ◌∙◌, ap, arith, List, ◌++◌, Option, none, some, ltb,
  if◌then◌else◌, length, take, drop, length-append, take-append, take-length, replicate,
}
use mathlib.Core.List.{append-nil, append_assoc}
use robot_ipc.Bindings.{Result, ok, raised, VariableOps, VariableLaws}
use robot_ipc.Bindings.PyVariable.{PyHostVariable}
use robot_ipc.Bindings.PyVariable
use robot_ipc.Package.{
  PyError, PyResult, gives, throws, ◌>>=◌, or_throw, Objects, Format, DataFormat, something_else,
  decode_with, absent, structure, validate_data_format, encode_data_format, decode_data_format,
  pickle_error, value_error, runtime_error,
}
use robot_ipc.Package.Codec.{Pickles, IsInstance, format_encoded, format_decoded}

-- `core` is `_core`.
pub record HostVariable (Obj : Type 0) : Type 0 where
  pub data_format : Option (Format Obj)
  pub name : List ℕ
  pub max_size : ℕ
  pub core : PyHostVariable

-- An exception of the class below.
abbrev pub from_core : {A : Type 0} → Result A → PyResult A
from_core (ok a) = gives a
from_core (raised e) = throws (runtime_error e)

-- `max_size`, where a format does not decide it.
abbrev pub size_for : {Obj : Type 0} → Option (Format Obj) → (max_size : ℕ) → ℕ
size_for none max_size = max_size
size_for (some f) max_size = f.size

module _ {S Obj : Type 0} (ops : VariableOps S) (o : Objects Obj) where
  abbrev pub created :
      Option (Format Obj)
      → (name : List ℕ) (max_size : ℕ) → Option (Result PyHostVariable × S)
      → Option (PyResult (HostVariable Obj) × S)
  created data_format name max_size none = none
  created data_format name max_size (some (made, s)) = some (
    (do
      core ← from_core made
      gives (record { data_format = data_format; name = name; max_size = max_size; core = core })),
    s,
  )

  unfoldable pub new :
      (name : List ℕ) (max_size : ℕ) → DataFormat Obj → S → Option (PyResult (HostVariable Obj) × S)
  unfolding validate_data_format
  new name max_size data_format s = elim (validate_data_format data_format) [
    | throws e ↦ some (throws e, s)
    | gives f ↦
        created f name (size_for f max_size) (PyVariable.new ops name (size_for f max_size) s)
  ]

  -- The payload with the number of bytes to write, where no `data_len` is given.
  abbrev pub payload_of : Option (Format Obj) → (max_size : ℕ) → Obj → PyResult (List ℕ × ℕ)
  payload_of none max_size x = do
    payload ← or_throw pickle_error (o.dumps x)
    gives (payload, length payload)
  payload_of (some f) max_size x = do
    payload ← encode_data_format x f max_size
    gives (payload, f.size)

  abbrev pub or_else : Option ℕ → ℕ → ℕ
  or_else none n = n
  or_else (some n) m = n

  abbrev pub written : Option (Result (Unit {0}) × S) → Option (PyResult (Unit {0}) × S)
  written none = none
  written (some (result, s)) = some (from_core result, s)

  unfoldable pub write :
      HostVariable Obj → Obj → (data_len : Option ℕ) → S → Option (PyResult (Unit {0}) × S)
  write v x data_len s = elim (payload_of v.data_format v.max_size x) [
    | throws e ↦ some (throws e, s)
    | gives (payload, n) ↦
        let op_size = or_else data_len n in
        if ltb v.max_size op_size
        then some (throws value_error, s)
        else written (PyVariable.write ops v.core payload op_size s)
  ]

  abbrev pub decoded :
      HostVariable Obj
      → Option ((Result (List ℕ) × PyHostVariable) × S)
      → Option ((PyResult Obj × HostVariable Obj) × S)
  decoded v none = none
  decoded v (some ((result, core), s)) =
      some (
        ((do raw ← from_core result; decode_with o v.data_format raw), record v { core = core }),
        s,
      )

  unfoldable pub read :
      HostVariable Obj → (data_len : Option ℕ) → S → Option ((PyResult Obj × HostVariable Obj) × S)
  read v data_len s = decoded v (PyVariable.read ops v.core (or_else data_len v.max_size) s)

-- An object that can travel: by pickle, or as an instance of the format, in at most `size` bytes.
abbrev pub Travels : {Obj : Type 0} → Objects Obj → DataFormat Obj → (size : ℕ) → Obj → Type 0
Travels o absent size x =
    (payload : List ℕ) × (0 < length payload) × (length payload ≤ size) × Pickles o x payload
Travels o (structure f) size x = (0 < f.size) × IsInstance f x
Travels o something_else size x = ⊥

-- The size of the variable that the constructor links.
abbrev pub linked_size : {Obj : Type 0} → DataFormat Obj → (max_size : ℕ) → ℕ
linked_size absent max_size = max_size
linked_size (structure f) max_size = f.size
linked_size something_else max_size = max_size
