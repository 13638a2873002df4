-- ===== src/Bindings/PyCaller.antt =====
-- `PyHostFunctionCaller` of src/python_bindings.cpp.
use robot_ipc.Common.{
  ℕ, ◌-◌, ◌<◌, ◌≤◌, ◌≡◌, ◌⊎◌, inl, inr, refl, ◌∙◌, ap, arith, Bool, true, false, List, ◌∷◌, ◌++◌,
  none, some, pos, negsuc, max, is_nonzero, ltb, if◌then◌else◌, length, take, drop, replicate,
  drop-replicate, take-append, Bool-cases, Option-cases, sym,
}
use mathlib.Core.List.{append_assoc}
use robot_ipc.Posix.{Os, M, World, pure, ◌>>=◌, write}
use robot_ipc.HostFunction.Caller.{
  Caller, link_host_function, unlink_host_function, call_host_function, get_response_host_function,
  is_short,
}
use robot_ipc.HostFunction.Caller.Link.{link-sizes}
use robot_ipc.Bindings.{
  padded, length-padded, Result, ok, raised, link_function_failed, argument_exceeds, call_failed,
  response_failed,
}

pub record PyHostFunctionCaller : Type 0 where
  pub arg_size : ℕ
  pub ret_size : ℕ
  pub handle : Caller
  pub buffer : List ℕ

unfoldable pub new : Os → (name : List ℕ) (arg_size ret_size : ℕ) → M (Result PyHostFunctionCaller)
new os name arg_size ret_size = do
  handle ← link_host_function os name arg_size ret_size
  elim handle [
    | none ↦ pure (raised link_function_failed)
    | some p ↦ pure (
        ok (record {
          arg_size = arg_size;
          ret_size = ret_size;
          handle = p;
          buffer = replicate (max arg_size ret_size) 0;
        }))
  ]

-- The destructor.
unfoldable pub delete : Os → PyHostFunctionCaller → M (Unit {0})
delete os c = do code ← unlink_host_function os c.handle; pure tt

-- `std::fill` of the `arg_size` first bytes, and `memcpy` of the payload over them.
abbrev pub filled : PyHostFunctionCaller → (payload : List ℕ) → List ℕ
filled c payload =
    payload ++ drop (length payload) (replicate c.arg_size 0 ++ drop c.arg_size c.buffer)

-- The library writes the `sz_arg` bytes behind the pointer.
unfoldable pub call :
    Os → PyHostFunctionCaller → (payload : List ℕ) → M (Result (Unit {0}) × PyHostFunctionCaller)
call os c payload =
    if ltb c.arg_size (length payload) then pure (raised argument_exceeds, c) else (do
      let buffer = filled c payload
      ret ← call_host_function os c.handle (take c.handle.sz_arg buffer)
      pure ((if is_nonzero ret then raised call_failed else ok tt), record c { buffer = buffer }))

unfoldable pub get_response : Os → PyHostFunctionCaller → M (Result (List ℕ) × PyHostFunctionCaller)
get_response os c = do
  (ret, bytes) ← get_response_host_function os c.handle
  let buffer = bytes ++ drop (length bytes) c.buffer
  pure (
    (if is_nonzero ret then raised response_failed else ok (take c.ret_size buffer)),
    record c { buffer = buffer },
  )

-- An object of the class has the sizes of its handle, which PIPE_BUF allows.
pub new-sizes :
    (os : Os) (name : List ℕ) (arg_size ret_size : ℕ) (h h' : World) (c : PyHostFunctionCaller)
    → new os name arg_size ret_size h ≡ some (ok c, h')
    → (c.arg_size ≡ arg_size)
      × (c.ret_size ≡ ret_size)
      × (c.handle.sz_arg ≡ arg_size)
      × (c.handle.sz_ret ≡ ret_size)
      × (arg_size ≤ os.pipe_buf)
      × (ret_size ≤ os.pipe_buf)
unfolding new
new-sizes os name arg_size ret_size h h' c e =
    elim (Option-cases (link_host_function os name arg_size ret_size h)) [
      | inl undefined ↦ absurd (ground (arith, undefined, e))
      | inr ((none, w), refused) ↦ absurd (ground (arith, refused, e))
      | inr ((some p, w), linked) ↦
          let (fits_arg, fits_ret, arg, ret) = link-sizes os name arg_size ret_size h w p linked in
          let same : c.handle ≡ p = ground (arith, linked, e) in
          (
            ground (arith, linked, e),
            ground (arith, linked, e),
            ap (λ (x : Caller). x.sz_arg) same ∙ arg,
            ap (λ (x : Caller). x.sz_ret) same ∙ ret,
            fits_arg,
            fits_ret,
          )
    ]

pub take-padded :
    (c : PyHostFunctionCaller) (payload : List ℕ)
    → length payload ≤ c.arg_size
    → take c.arg_size (filled c payload) ≡ padded c.arg_size payload
take-padded c payload fits =
    let zeros = replicate (c.arg_size - length payload) 0 in
    let whole : filled c payload ≡ padded c.arg_size payload ++ drop c.arg_size c.buffer =
      ap (λ (xs : List ℕ). payload ++ xs)
        (drop-replicate (length payload) c.arg_size 0 (drop c.arg_size c.buffer) fits)
      ∙ sym (append_assoc payload zeros (drop c.arg_size c.buffer)) in
    rw whole (
      take-append c.arg_size (padded c.arg_size payload) (drop c.arg_size c.buffer)
        (sym (length-padded c.arg_size payload fits)))

fails : (b : Bool) → is_nonzero (if b then negsuc 0 else pos 0) ≡ b
fails true = refl
fails false = refl

-- Where the handle has the argument's size of the object, as the constructor sees to, a call from
-- Python sends the payload filled up with zeros to that size in one message, whatever payloads went
-- before, and raises an exception exactly if the system did not take all of it; a payload that is
-- too long raises one, and nothing is sent.
pub py_call-sends :
    (os : Os) (c : PyHostFunctionCaller) (payload : List ℕ) (h : World)
    → c.handle.sz_arg ≡ c.arg_size
    → let message = write c.handle.req_fd (padded c.arg_size payload) in
      (result : Result (Unit {0})) × (c' : PyHostFunctionCaller) × (h' : World) × (call os c payload
          h
        ≡ some ((result, c'), h'))
      × (c'.handle ≡ c.handle)
      × (((c.arg_size < length payload) × (result ≡ raised argument_exceeds) × (h' ≡ h))
          ⊎ ((length payload ≤ c.arg_size)
              × (h' ≡ (message, os.answer h message) ∷ h)
              × (result ≡ (
                  if is_short (os.answer h message).ret c.arg_size
                  then raised call_failed
                  else ok tt))))
unfolding call call_host_function
py_call-sends os c payload h same =
    let buffer = filled c payload in
    let message = write c.handle.req_fd (padded c.arg_size payload) in
    let r = os.answer h message in
    elim (Bool-cases (ltb c.arg_size (length payload))) [
      | inl long ↦ (
        raised argument_exceeds,
        c,
        h,
        rw long refl,
        refl,
        inl (ground (arith, long), refl, refl),
      )
      | inr fits ↦
          let le : length payload ≤ c.arg_size = ground (arith, fits) in
          let bytes : take c.handle.sz_arg buffer ≡ padded c.arg_size payload =
            ap (λ (n : ℕ). take n buffer) same ∙ take-padded c payload le in
          (
            if is_short r.ret c.arg_size then raised call_failed else ok tt,
            record c { buffer = buffer },
            (message, r) ∷ h,
            rw (fits, bytes, same, fails (is_short r.ret c.arg_size)) refl,
            refl,
            inr (le, refl, refl),
          )
    ]
