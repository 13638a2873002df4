-- ===== src/Bindings.antt =====
-- src/python_bindings.cpp and include/robot_ipc.hpp: the classes through which Python and C++ use
-- the library. A class sees the shared variables through the operations of `VariableOps`.
pub mod PyVariable
pub mod PyCaller
pub mod PyCallback
pub mod PyDispatcher
pub mod PyRemote
pub mod Cpp
pub mod Solo
mod Tests
use robot_ipc.Common.{
  ℕ, ◌+◌, ◌≤◌, ◌≡◌, Bool, true, List, ◌++◌, Option, some, ℤ, pos, length, take, drop, replicate,
  length-append, length-replicate, arith, ◌-◌,
}

-- The exceptions that the classes throw, by their messages.
pub data Error : Type 0 where
  link_variable_failed payload_exceeds_size payload_shorter write_failed : Error
  op_size_exceeds_size read_failed : Error
  link_function_failed argument_exceeds call_failed response_failed : Error
  create_failed attach_failed start_failed : Error

pub data Result (A : Type 0) : Type 0 where
  ok : A → Result A
  raised : Error → Result A

-- The functions of include/host_variable.h on a state `S`; `none` is a call that does not return.
-- `data` and `buf` are the bytes behind the pointers.
pub record VariableOps (S : Type 0) : Type 0 where
  -- whether the handle is not NULL
  pub link : (name : List ℕ) (size : ℕ) → S → Option (Bool × S)
  pub unlink : (name : List ℕ) (size : ℕ) → S → Option (ℤ × S)
  pub write : (contents : List ℕ) (size op_size : ℕ) → S → Option (ℤ × S)
  pub read : (buf : List ℕ) (size op_size : ℕ) → S → Option ((ℤ × List ℕ) × S)

-- A write of `op_size` bytes and a read of `total`, which finds `more` bytes behind the first ones.
abbrev pub ReadsMore :
    {S : Type 0} (ops : VariableOps S)
    → (size : ℕ) → S
    → (contents buf : List ℕ) (op_size total more : ℕ) → (S → Type 0)
    → Type 0
ReadsMore {S} ops size s contents buf op_size total more IsReady =
    (s' s'' : S) × (rest : List ℕ) × (length rest ≡ more)
    × (ops.write contents size op_size s ≡ some (pos 0, s'))
    × (ops.read buf size total s'
        ≡ some ((pos 0, take op_size contents ++ rest ++ drop total buf), s''))
    × IsReady s''

-- What a client may rely on with a variable of `size` bytes: once linked it is ready; where it is
-- ready a write succeeds, and a read after it finds what was written and leaves the rest of its
-- buffer alone.
pub record VariableLaws {S : Type 0} (ops : VariableOps S) (size : ℕ) (IsReady : S → Type 0)
    : Type 0 where
  pub link-ready :
      (name : List ℕ) (s : S) → (s' : S) × (ops.link name size s ≡ some (true, s')) × IsReady s'
  pub write-read :
      (s : S) (contents buf : List ℕ) (op_size : ℕ)
      → IsReady s
      → op_size ≤ size
      → op_size ≤ length contents
      → (s' s'' : S) × (ops.write contents size op_size s ≡ some (pos 0, s'))
        × (ops.read buf size op_size s'
            ≡ some ((pos 0, take op_size contents ++ drop op_size buf), s''))
        × IsReady s''
  -- A read of as many bytes as were written or more.
  pub write-read_more :
      (s : S) (contents buf : List ℕ) (op_size total : ℕ)
      → IsReady s
      → op_size ≤ total
      → total ≤ size
      → op_size ≤ length contents
      → ReadsMore ops size s contents buf op_size total (total - op_size) IsReady

-- A message of `size` bytes with the payload in front.
abbrev pub padded : (size : ℕ) → List ℕ → List ℕ
padded size payload = payload ++ replicate (size - length payload) 0

pub length-padded :
    (size : ℕ) (payload : List ℕ) → length payload ≤ size → length (padded size payload) ≡ size
length-padded size payload fits =
    let zero_byte : ℕ = 0 in
    let zeros = replicate (size - length payload) zero_byte in
    omega (arith, length-append payload zeros, length-replicate (size - length payload) zero_byte)
