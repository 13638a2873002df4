-- ===== src/Bindings/PyVariable.antt =====
-- `PyHostVariable` of src/python_bindings.cpp.
pub mod Machine
use robot_ipc.Common.{
  ℕ, ◌<◌, ◌≤◌, ◌≡◌, ◌⊎◌, inl, inr, refl, ◌∙◌, arith, List, ◌++◌, Option, none, some, ℤ, is_nonzero,
  ltb, ◌==◌, if◌then◌else◌, length, take, drop, replicate, take-length, take-append, length-take,
  Bool-cases,
}
use robot_ipc.Bindings.{
  link_variable_failed, payload_exceeds_size, payload_shorter, write_failed, op_size_exceeds_size,
  read_failed, Result, ok, raised, VariableOps, VariableLaws,
}

pub record PyHostVariable : Type 0 where
  pub name : List ℕ
  pub size : ℕ
  pub buffer : List ℕ

module _ {S : Type 0} (ops : VariableOps S) where
  -- The constructor; the elements of a new vector are 0.
  unfoldable pub new : (name : List ℕ) (size : ℕ) → S → Option (Result PyHostVariable × S)
  new name size s = elim (ops.link name size s) [
    | none ↦ none
    | some (linked, s') ↦ some (
      if linked
          then ok (record { name = name; size = size; buffer = replicate size 0 })
          else raised link_variable_failed,
      s',
    )
  ]

  -- The destructor: what `unlink_host_variable` returns is not looked at.
  unfoldable pub delete : PyHostVariable → S → Option S
  delete v s = elim (ops.unlink v.name v.size s) [ none ↦ none | some (ret, s') ↦ some s' ]

  abbrev pub wrote : Option (ℤ × S) → Option (Result (Unit {0}) × S)
  wrote none = none
  wrote (some (ret, s)) = some (if is_nonzero ret then raised write_failed else ok tt, s)

  -- An `op_size` of 0 stands for the whole payload.
  unfoldable pub write :
      PyHostVariable → (payload : List ℕ) (op_size : ℕ) → S → Option (Result (Unit {0}) × S)
  write v payload op_size s =
      let effective_size = if op_size == 0 then length payload else op_size in
      if ltb v.size effective_size
      then some (raised payload_exceeds_size, s)
      else if ltb (length payload) effective_size
      then some (raised payload_shorter, s)
      else wrote (ops.write payload v.size effective_size s)

  -- The bytes are taken from the buffer, which keeps what was read.
  abbrev pub was_read :
      PyHostVariable
      → (effective_size : ℕ) → Option ((ℤ × List ℕ) × S)
      → Option ((Result (List ℕ) × PyHostVariable) × S)
  was_read v effective_size none = none
  was_read v effective_size (some ((ret, buffer), s)) = some (
    (
      if is_nonzero ret then raised read_failed else ok (take effective_size buffer),
      record v { buffer = buffer },
    ),
    s,
  )

  unfoldable pub read :
      PyHostVariable → (op_size : ℕ) → S → Option ((Result (List ℕ) × PyHostVariable) × S)
  read v op_size s =
      let effective_size = if op_size == 0 then v.size else op_size in
      if ltb v.size effective_size
      then some ((raised op_size_exceeds_size, v), s)
      else was_read v effective_size (ops.read v.buffer v.size effective_size s)

-- A write from Python reaches the library only with a size that the variable has and the payload
-- fills; with any other size it raises one of its two exceptions, and the library is not called.
pub py_write_guarded :
    {S : Type 0} (ops : VariableOps S) (v : PyHostVariable) (payload : List ℕ) (op_size : ℕ) (s : S)
    → ((n : ℕ) × (n ≤ v.size)
        × (n ≤ length payload)
        × ((op_size ≡ 0) ⊎ (n ≡ op_size))
        × (write ops v payload op_size s ≡ wrote ops (ops.write payload v.size n s)))
      ⊎ ((write ops v payload op_size s ≡ some (raised payload_exceeds_size, s))
          ⊎ (write ops v payload op_size s ≡ some (raised payload_shorter, s)))
unfolding write
py_write_guarded ops v payload op_size s =
    let n = if op_size == 0 then length payload else op_size in
    elim (Bool-cases (ltb v.size n)) [
      | inl large ↦ inr (inl (rw large refl))
      | inr fits ↦ elim (Bool-cases (ltb (length payload) n)) [
        | inl short ↦ inr (inr (rw (fits, short) refl))
        | inr whole ↦
            inl
              (n, ground (arith, fits), ground (arith, whole), ground arith, rw (fits, whole) refl)
      ]
    ]

write_then_read :
    {S : Type 0} (ops : VariableOps S) (v : PyHostVariable) (IsReady : S → Type 0)
    → VariableLaws ops v.size IsReady
    → (payload : List ℕ) (s : S) → IsReady s
    → 0 < length payload
    → length payload ≤ v.size
    → (s' s'' : S) × (v' : PyHostVariable) × (write ops v payload 0 s ≡ some (ok tt, s'))
      × (read ops v (length payload) s' ≡ some ((ok payload, v'), s''))
      × IsReady s''
unfolding write read
write_then_read ops v IsReady laws payload s ready some_bytes fits =
    let n = length payload in
    let (s', s'', wrote, found, ready') =
      laws.write-read s payload v.buffer n ready fits (omega arith) in
    let front : take n (take n payload ++ drop n v.buffer) ≡ payload =
      take-append n (take n payload) (drop n v.buffer)
        (omega (arith, length-take n payload (omega arith)))
      ∙ take-length n payload refl in
    (
      s',
      s'',
      record v { buffer = take n payload ++ drop n v.buffer },
      ground (arith, wrote),
      ground (arith, found, front),
      ready',
    )

-- With operations that keep the laws, the constructor succeeds, and a payload that is not empty and
-- fits in the variable is read back as it was written: neither call raises an exception.
pub py_round_trip :
    {S : Type 0} (ops : VariableOps S) (IsReady : S → Type 0) (size : ℕ)
    → VariableLaws ops size IsReady
    → (name payload : List ℕ) (s : S) → 0 < length payload
    → length payload ≤ size
    → (s' s₂ s₃ : S) × (v v' : PyHostVariable) × (new ops name size s ≡ some (ok v, s'))
      × (write ops v payload 0 s' ≡ some (ok tt, s₂))
      × (read ops v (length payload) s₂ ≡ some ((ok payload, v'), s₃))
unfolding new
py_round_trip ops IsReady size laws name payload s some_bytes fits =
    let (s', linked, ready) = laws.link-ready name s in
    let v : PyHostVariable = record { name = name; size = size; buffer = replicate size 0 } in
    let (s₂, s₃, v', wrote, found, again) =
      write_then_read ops v IsReady laws payload s' ready some_bytes fits in
    (s', s₂, s₃, v, v', ground (arith, linked), wrote, found)
