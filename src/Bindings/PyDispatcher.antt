-- ===== src/Bindings/PyDispatcher.antt =====
-- `PyHostFunctionDispatcher` of src/python_bindings.cpp.
use robot_ipc.Common.{
  ℕ, suc, ◌≡◌, ◌≢◌, ◌⊎◌, inl, inr, sym, ◌∙◌, ap, arith, subst, Bool, false, List, [], ◌∷◌, ◌++◌,
  none, some, ℤ, pos, is_nonzero, if◌then◌else◌, length, length-append, get_elem?, get_elem?-snoc,
  get_elem?-lt, Bool-cases, Option-cases,
}
use robot_ipc.Posix.{Os, M, World, pure, ◌>>=◌}
use robot_ipc.Posix.Balance.{is_int}
use robot_ipc.HostFunction.Receiver.{
  Entry, Dispatcher, HostFunctionEx, attach_host_function_ex, start_host_function_dispatcher,
}
use robot_ipc.HostFunction.Receiver.Attach.{attach_ex-appends, attach_ex-restores}
use robot_ipc.HostFunction.Receiver.Create.{create_host_function_dispatcher}
use robot_ipc.HostFunction.Receiver.Delete.{delete_host_function_dispatcher}
use robot_ipc.Bindings.{Result, ok, raised, create_failed, attach_failed, start_failed}
use robot_ipc.Bindings.PyCallback.{CallbackBinding, RunsCallback, dispatcher_callback}

-- `handle_` is the dispatcher itself.
pub record PyHostFunctionDispatcher : Type 0 where
  pub max_func_count : ℕ
  pub handle : Dispatcher
  pub bindings : List CallbackBinding

-- `entries` is what the new arrays hold.
unfoldable pub new :
    Os → (entries : ℕ → Entry) (max_func_count : ℕ) → M (Result PyHostFunctionDispatcher)
new os entries max_func_count = do
  handle ← create_host_function_dispatcher os entries max_func_count
  elim handle [
    | none ↦ pure (raised create_failed)
    | some p ↦ pure (ok (record { max_func_count = max_func_count; handle = p; bindings = [] }))
  ]

-- The destructor; it is called with the interpreter's lock held.
unfoldable pub delete : Os → PyHostFunctionDispatcher → M (Unit {0})
delete os d = do code ← delete_host_function_dispatcher os d.handle; pure tt

-- `dispatcher_callback` with the binding at the address that it is given.
abbrev pub callback_at : CallbackBinding → HostFunctionEx
callback_at b args user_data =
    dispatcher_callback args (if is_int user_data (pos 0) then none else some b)

-- The binding at `address` is kept only if it was attached.
unfoldable pub attach :
    Os
    → PyHostFunctionDispatcher
    → (name : List ℕ) → CallbackBinding
    → (address : ℤ) → M (Result (Unit {0}) × PyHostFunctionDispatcher)
attach os d name b address = do
  (code, p) ← attach_host_function_ex os d.handle name (callback_at b) address b.arg_size b.ret_size
  if is_nonzero code
      then pure (raised attach_failed, record d { handle = p })
      else pure (ok tt, record d { handle = p; bindings = d.bindings ++ b ∷ [] })

unfoldable pub start : Os → PyHostFunctionDispatcher → M (Result (Unit {0}))
start os d = do
  code ← start_host_function_dispatcher os d.handle
  pure (if is_nonzero code then raised start_failed else ok tt)

-- The functions of the dispatcher run the bindings, each its own, and no binding is lost.
pub record IsBound (d : PyHostFunctionDispatcher) : Type 0 where
  pub counted : length d.bindings ≡ d.handle.cnt_func
  pub runs :
      (i : ℕ) (b : CallbackBinding)
      → get_elem? d.bindings i ≡ some b
      → RunsCallback (d.handle.entries i) b

entry-RunsCallback :
    (os : Os) (p p' : Dispatcher) (name : List ℕ) (b : CallbackBinding) (address : ℤ) (h h' : World)
    → is_int address (pos 0) ≡ false
    → attach_host_function_ex os p name (callback_at b) address b.arg_size b.ret_size h
      ≡ some ((pos 0, p'), h')
    → RunsCallback (p'.entries p.cnt_func) b
entry-RunsCallback os p p' name b address h h' there run =
    let id = p.cnt_func in
    let (counted, code, data_at, owner, arg, ret, same) =
      attach_ex-appends os p p' name (callback_at b) address b.arg_size b.ret_size (suc id) h h'
        (λ e. omega arith) run in
    record {
      code = λ args.
          ap (λ (f : HostFunctionEx). f args (p'.entries id).user_data) code
          ∙ ap (callback_at b args) data_at
          ∙ ap (λ (z : Bool). dispatcher_callback args (if z then none else some b)) there;
      arg = arg;
      ret = ret;
    }

attached-IsBound :
    (os : Os) (d : PyHostFunctionDispatcher) (p : Dispatcher) (name : List ℕ) (b : CallbackBinding)
    (address : ℤ) (h h' : World)
    → is_int address (pos 0) ≡ false
    → IsBound d
    → attach_host_function_ex os d.handle name (callback_at b) address b.arg_size b.ret_size h
      ≡ some ((pos 0, p), h')
    → IsBound (record d { handle = p; bindings = d.bindings ++ b ∷ [] })
attached-IsBound os d p name b address h h' there bound run =
    let id = d.handle.cnt_func in
    let appends = λ (j : ℕ) (ne : j ≢ id).
      attach_ex-appends os d.handle p name (callback_at b) address b.arg_size b.ret_size j h h' ne
        run in
    let (counted, code, data_at, owner, arg, ret, same) = appends (suc id) (λ e. omega arith) in
    record {
      counted = omega (arith, counted, bound.counted, length-append d.bindings (b ∷ []));
      runs = λ i c found. elim (get_elem?-snoc d.bindings b i c found) [
        | inl front ↦
            let ne : i ≢ id = λ e. omega (arith, front.0, bound.counted) in
            subst (λ x. RunsCallback x c) (sym (appends i ne).6) (bound.runs i c front.1)
        | inr last ↦
            rw (last.0 ∙ bound.counted, last.1)
              (entry-RunsCallback os d.handle p name b address h h' there run)
      ];
    }

-- A function that is attached runs its binding.
pub attached-RunsCallback :
    (os : Os) (d d' : PyHostFunctionDispatcher) (name : List ℕ) (b : CallbackBinding) (address : ℤ)
    (h h' : World)
    → is_int address (pos 0) ≡ false
    → attach os d name b address h ≡ some ((ok tt, d'), h')
    → RunsCallback (d'.handle.entries d.handle.cnt_func) b
unfolding attach
attached-RunsCallback os d d' name b address h h' there e =
    elim (Option-cases
      (attach_host_function_ex os d.handle name (callback_at b) address b.arg_size b.ret_size h)) [
        | inl undefined ↦ absurd (ground (arith, undefined, e))
        | inr (((code, p), w), run) ↦ elim (Bool-cases (is_nonzero code)) [
          | inl failed ↦ absurd (ground (arith, run, failed, e))
          | inr done ↦
              let same : d'.handle ≡ p = ground (arith, run, done, e) in
              let success : code ≡ pos 0 = ground (arith, done) in
              rw same
                (entry-RunsCallback os d.handle p name b address h w there (rw success at run))
        ]
      ]

failed-IsBound :
    (os : Os) (d : PyHostFunctionDispatcher) (p : Dispatcher) (name : List ℕ) (b : CallbackBinding)
    (address code : ℤ) (h h' : World)
    → code ≢ pos 0
    → IsBound d
    → attach_host_function_ex os d.handle name (callback_at b) address b.arg_size b.ret_size h
      ≡ some ((code, p), h')
    → IsBound (record d { handle = p })
failed-IsBound os d p name b address code h h' failed bound run =
    let id = d.handle.cnt_func in
    let restores = λ (j : ℕ) (ne : j ≢ id).
      attach_ex-restores os d.handle p name (callback_at b) address b.arg_size b.ret_size j h h'
        code ne failed run in
    record {
      counted = bound.counted ∙ sym (restores (suc id) (λ e. omega arith)).1;
      runs = λ i c found.
          let ne : i ≢ id = λ e. omega (arith, get_elem?-lt d.bindings i c found, bound.counted) in
          subst (λ x. RunsCallback x c) (sym (restores i ne).2) (bound.runs i c found);
    }

-- An attachment keeps the functions and their bindings in step, whether it succeeds or raises.
pub py_attach-IsBound :
    (os : Os) (d d' : PyHostFunctionDispatcher) (name : List ℕ) (b : CallbackBinding) (address : ℤ)
    (h h' : World) (result : Result (Unit {0}))
    → is_int address (pos 0) ≡ false
    → IsBound d
    → attach os d name b address h ≡ some ((result, d'), h')
    → IsBound d' × ((result ≡ raised attach_failed) ⊎ (d'.bindings ≡ d.bindings ++ b ∷ []))
unfolding attach
py_attach-IsBound os d d' name b address h h' result there bound e =
    elim (Option-cases
      (attach_host_function_ex os d.handle name (callback_at b) address b.arg_size b.ret_size h)) [
        | inl undefined ↦ ground (arith, undefined, e)
        | inr (((code, p), w), run) ↦ elim (Bool-cases (is_nonzero code)) [
          | inl failed ↦
              let same : d' ≡ record d { handle = p } = ground (arith, run, failed, e) in
              let raises : result ≡ raised attach_failed = ground (arith, run, failed, e) in
              (
                subst IsBound (sym same) (
                    failed-IsBound os d p name b address code h w
                      (λ zero_code. ground (arith, failed, zero_code)) bound run),
                inl raises,
              )
          | inr done ↦
              let same : d' ≡ record d { handle = p; bindings = d.bindings ++ b ∷ [] } =
                ground (arith, run, done, e) in
              let success : code ≡ pos 0 = ground (arith, done) in
              (
                subst IsBound (sym same)
                    (attached-IsBound os d p name b address h w there bound (rw success at run)),
                inr (ap (λ (x : PyHostFunctionDispatcher). x.bindings) same),
              )
        ]
      ]
