-- ===== src/Bindings/Cpp.antt =====
-- The classes of include/robot_ipc.hpp.
pub mod Traits
pub mod Answered
use robot_ipc.Common.{
  ℕ, ◌≡◌, sym, ◌∙◌, ap, arith, Bool, List, ◌++◌, Option, none, some, ℤ, pos, is_nonzero,
  if◌then◌else◌, length, take, drop, take-length, drop-length, ap₂,
}
use mathlib.Core.List.{append-nil}
use robot_ipc.Posix.{Os, M, pure, ◌>>=◌}
use robot_ipc.HostFunction.Caller.{
  Caller, link_host_function, unlink_host_function, call_host_function, get_response_host_function,
}
use robot_ipc.HostFunction.Receiver.{
  Entry, Dispatcher, attach_host_function, start_host_function_dispatcher,
}
use robot_ipc.HostFunction.Receiver.Create.{create_host_function_dispatcher}
use robot_ipc.HostFunction.Receiver.Delete.{delete_host_function_dispatcher}
use robot_ipc.Bindings.{
  Result, ok, raised, link_variable_failed, link_function_failed, create_failed, VariableOps,
  VariableLaws,
}

-- What the compiler makes of a trivially copyable type: `sizeof(T)`, and the two copies by `memcpy`
-- of `to_bytes` and `from_bytes`.
pub record Layout (T : Type 0) : Type 0 where
  pub size_of : ℕ
  pub to_bytes : T → List ℕ
  pub from_bytes : List ℕ → T

-- A copy of an object's bytes is the object.
pub record IsTrivial {T : Type 0} (layout : Layout T) : Type 0 where
  pub sized : (x : T) → length (layout.to_bytes x) ≡ layout.size_of
  pub copied : (x : T) → layout.from_bytes (layout.to_bytes x) ≡ x

-- `HostVariable<T>`: its member `name`. The handle is the state's.
module _ {S T : Type 0} (ops : VariableOps S) (layout : Layout T) where
  unfoldable pub new_variable : (name : List ℕ) → S → Option (Result (List ℕ) × S)
  new_variable name s = elim (ops.link name layout.size_of s) [
    | none ↦ none
    | some (linked, s') ↦ some (if linked then ok name else raised link_variable_failed, s')
  ]

  -- The destructor: whether it prints that the variable could not be unlinked.
  unfoldable pub delete_variable : (name : List ℕ) → S → Option (Bool × S)
  delete_variable name s = elim (ops.unlink name layout.size_of s) [
    | none ↦ none
    | some (ret, s') ↦ some (is_nonzero ret, s')
  ]

  unfoldable pub write : T → S → Option (ℤ × S)
  write x s = ops.write (layout.to_bytes x) layout.size_of layout.size_of s

  -- The result, and `data` after the call.
  unfoldable pub read : (old : T) → S → Option ((ℤ × T) × S)
  read old s = elim (ops.read (layout.to_bytes old) layout.size_of layout.size_of s) [
    | none ↦ none
    | some ((ret, bytes), s') ↦ some ((ret, layout.from_bytes bytes), s')
  ]

-- With operations that keep the laws, and a type whose bytes are the object, the constructor does
-- not throw, and an object that is written is read: both calls return 0, and `data` is the object.
pub cpp_round_trip :
    {S T : Type 0} (ops : VariableOps S) (layout : Layout T) (IsReady : S → Type 0)
    → IsTrivial layout
    → VariableLaws ops layout.size_of IsReady
    → (name : List ℕ) (x old : T) (s : S)
    → (s₁ s₂ s₃ : S) × (new_variable ops layout name s ≡ some (ok name, s₁))
      × (write ops layout x s₁ ≡ some (pos 0, s₂))
      × (read ops layout old s₂ ≡ some ((pos 0, x), s₃))
unfolding new_variable write read
cpp_round_trip ops layout IsReady trivial laws name x old s =
    let n = layout.size_of in
    let bytes = layout.to_bytes x in
    let (s₁, linked, ready) = laws.link-ready name s in
    let (s₂, s₃, wrote, found, again) =
      laws.write-read s₁ bytes (layout.to_bytes old) n ready (omega arith)
        (omega (arith, trivial.sized x)) in
    let whole : take n bytes ++ drop n (layout.to_bytes old) ≡ bytes =
      ap₂ (λ (xs ys : List ℕ). xs ++ ys) (take-length n bytes (sym (trivial.sized x)))
        (drop-length n (layout.to_bytes old) (sym (trivial.sized old)))
      ∙ append-nil bytes in
    (
      s₁,
      s₂,
      s₃,
      ground (arith, linked),
      wrote,
      ground (arith, found, ap layout.from_bytes whole ∙ trivial.copied x),
    )

-- `HostFunctionCaller<R(T)>`.
module _ {T R : Type 0} (os : Os) (arg : Layout T) (ret : Layout R) where
  unfoldable pub new_caller : (name : List ℕ) → M (Result Caller)
  new_caller name = do
    p ← link_host_function os name arg.size_of ret.size_of
    elim p [ none ↦ pure (raised link_function_failed) | some handle ↦ pure (ok handle) ]

  unfoldable pub delete_caller : Caller → M Bool
  delete_caller p = do code ← unlink_host_function os p; pure (is_nonzero (pos code))

  unfoldable pub call : Caller → T → M ℤ
  call p x = call_host_function os p (arg.to_bytes x)

  -- The result, and `ret` after the call.
  unfoldable pub get_response : Caller → (old : R) → M (ℤ × R)
  get_response p old = do
    (code, bytes) ← get_response_host_function os p
    pure (code, ret.from_bytes (bytes ++ drop (length bytes) (ret.to_bytes old)))

-- `HostFunctionDispatcher`; `foo` is called by the bytes behind its pointers.
module _ (os : Os) where
  unfoldable pub new_dispatcher : (entries : ℕ → Entry) (num_func : ℕ) → M (Result Dispatcher)
  new_dispatcher entries num_func = do
    p ← create_host_function_dispatcher os entries num_func
    elim p [ none ↦ pure (raised create_failed) | some handle ↦ pure (ok handle) ]

  unfoldable pub delete_dispatcher : Dispatcher → M Bool
  delete_dispatcher p = do code ← delete_host_function_dispatcher os p; pure (is_nonzero (pos code))

  abbrev pub by_bytes :
      {T R : Type 0} → Layout T → Layout R → (T → Option R) → List ℕ → Option (List ℕ)
  by_bytes arg ret foo args = elim (foo (arg.from_bytes args)) [
    | none ↦ none
    | some r ↦ some (ret.to_bytes r)
  ]

  unfoldable pub attach :
      {T R : Type 0}
      → Dispatcher
      → (name : List ℕ) → Layout T
      → Layout R
      → (T → Option R)
      → M (ℤ × Dispatcher)
  attach p name arg ret foo =
      attach_host_function os p name (by_bytes arg ret foo) arg.size_of ret.size_of

  unfoldable pub start : Dispatcher → M ℤ
  start p = start_host_function_dispatcher os p
