-- ===== src/HostFunction/Receiver/Attach.antt =====
-- `attach_host_function_ex` and `attach_host_function` on every branch.
use robot_ipc.Common.{
  ℕ, ◌+◌, ◌≡◌, ◌≢◌, ◌≤◌, ◌<◌, ◌⊎◌, inl, inr, arith, false, List, ◌∷◌, ◌++◌, Option, none, some, ℤ,
  pos, negsuc, is_negative, is_nonzero, if◌then◌else◌, length, length-append, Option-cases,
}
use robot_ipc.Posix.{Os, World, malloc, mkdir, mkfifo, open_fifo}
use robot_ipc.Posix.Balance.{is_int, one_if, opens, closes, allocs, frees}
use robot_ipc.HostFunction.Pipe.{codes, pipe_name_prefix}
use robot_ipc.HostFunction.Receiver.Entries.{open_pipes-Keeps}
use robot_ipc.HostFunction.Receiver.{
  HostFunctionEx, Entry, Dispatcher, try_to_open_pipe, set_entry, listen, open_response,
  open_request, open_pipes, attach_host_function_ex, attach_host_function, adapter, context_size,
}

-- The descriptors of entry `id`, where the attachment succeeded.
abbrev pub attached_fds : ℕ → ℤ → Entry → ℕ
attached_fds fd code e =
    if is_nonzero code
    then 0
    else one_if (is_int e.req_fd (pos fd)) + one_if (is_int e.res_fd (pos fd))

module _ (os : Os) (name : List ℕ) (id fd : ℕ) where
  listen_fds :
      (p p' : Dispatcher) (h h' : World) (code : ℤ)
      → is_negative (p.entries id).req_fd ≡ false
      → is_negative (p.entries id).res_fd ≡ false
      → listen os p id h ≡ some ((code, p'), h')
      → opens fd h'
          + closes fd h
          + one_if (is_int (p.entries id).req_fd (pos fd))
          + one_if (is_int (p.entries id).res_fd (pos fd))
        ≡ opens fd h + closes fd h' + attached_fds fd code (p'.entries id)
  unfolding listen
  listen_fds p p' h h' code req res e = ground arith

  open_response_fds :
      (p p' : Dispatcher) (h h' : World) (code : ℤ)
      → is_negative (p.entries id).req_fd ≡ false
      → open_response os name p id h ≡ some ((code, p'), h')
      → opens fd h' + closes fd h + one_if (is_int (p.entries id).req_fd (pos fd))
        ≡ opens fd h + closes fd h' + attached_fds fd code (p'.entries id)
  unfolding open_response try_to_open_pipe
  open_response_fds p p' h h' code req e =
      let path = pipe_name_prefix ++ name ++ codes "_res" in
      let made = os.answer h (mkfifo path) in
      let h₁ = (mkfifo path, made) ∷ h in
      let opened = os.answer h₁ (open_fifo path) in
      let h₂ = (open_fifo path, opened) ∷ h₁ in
      let p₁ = set_entry p id (record (p.entries id) { res_fd = opened.ret }) in
      ground (arith, listen_fds p₁ p' h₂ h' code)

  open_request_fds :
      (p p' : Dispatcher) (h h' : World) (code : ℤ)
      → open_request os name p id h ≡ some ((code, p'), h')
      → opens fd h' + closes fd h ≡ opens fd h + closes fd h' + attached_fds fd code (p'.entries id)
  unfolding open_request try_to_open_pipe
  open_request_fds p p' h h' code e =
      let path = pipe_name_prefix ++ name ++ codes "_req" in
      let made = os.answer h (mkfifo path) in
      let h₁ = (mkfifo path, made) ∷ h in
      let opened = os.answer h₁ (open_fifo path) in
      let h₂ = (open_fifo path, opened) ∷ h₁ in
      let p₁ = set_entry p id (record (p.entries id) { req_fd = opened.ret }) in
      ground (arith, open_response_fds p₁ p' h₂ h' code)

-- An attachment that returns an error leaves no descriptor open that it opened; one that returns 0
-- leaves open the two of its entry.
pub attach_ex-fds :
    (os : Os) (p p' : Dispatcher) (name : List ℕ) (foo : HostFunctionEx) (user_data : ℤ)
    (sz_arg sz_ret fd : ℕ) (h h' : World) (code : ℤ)
    → attach_host_function_ex os p name foo user_data sz_arg sz_ret h ≡ some ((code, p'), h')
    → opens fd h' + closes fd h
      ≡ opens fd h + closes fd h' + attached_fds fd code (p'.entries p.cnt_func)
unfolding attach_host_function_ex open_pipes
attach_ex-fds os p p' name foo user_data sz_arg sz_ret fd h h' code e =
    let id = p.cnt_func in
    let entry : Entry = record (p.entries id) {
      foo = foo;
      user_data = user_data;
      owns_user_data = 0;
      sz_arg = sz_arg;
      sz_ret = sz_ret;
    } in
    let p₁ = set_entry (record p { cnt_func = id + 1 }) id entry in
    let made = os.answer h (mkdir pipe_name_prefix) in
    let h₁ = (mkdir pipe_name_prefix, made) ∷ h in
    ground (arith, open_request_fds os name id fd p₁ p' h₁ h' code)

-- With room in the arrays, and a name of at most 236 bytes, an attachment returns.
pub attach_ex-returns :
    (os : Os) (p : Dispatcher) (name : List ℕ) (foo : HostFunctionEx) (user_data : ℤ)
    (sz_arg sz_ret : ℕ) (h : World)
    → p.cnt_func < p.capacity
    → length name ≤ 236
    → attach_host_function_ex os p name foo user_data sz_arg sz_ret h ≢ none
unfolding attach_host_function_ex open_pipes open_request open_response listen try_to_open_pipe
attach_ex-returns os p name foo user_data sz_arg sz_ret h room short =
    ground (arith, length-append name (codes "_req"), length-append name (codes "_res"))

-- The dispatcher once the arrays are written.
abbrev pub entered : Dispatcher → HostFunctionEx → (user_data : ℤ) (sz_arg sz_ret : ℕ) → Dispatcher
entered p foo user_data sz_arg sz_ret =
    set_entry (record p { cnt_func = p.cnt_func + 1 }) p.cnt_func
      (record (p.entries p.cnt_func) {
        foo = foo;
        user_data = user_data;
        owns_user_data = 0;
        sz_arg = sz_arg;
        sz_ret = sz_ret;
      })

attach_ex-cases :
    (os : Os) (p p' : Dispatcher) (name : List ℕ) (foo : HostFunctionEx) (user_data : ℤ)
    (sz_arg sz_ret : ℕ) (h h' : World) (code : ℤ)
    → attach_host_function_ex os p name foo user_data sz_arg sz_ret h ≡ some ((code, p'), h')
    → ((code ≡ negsuc 4) × (p' ≡ p))
      ⊎ (open_pipes os name (entered p foo user_data sz_arg sz_ret) p.cnt_func h
          ≡ some ((code, p'), h'))
unfolding attach_host_function_ex
attach_ex-cases os p p' name foo user_data sz_arg sz_ret h h' code e = ground arith

-- An attachment that returns 0 appends one entry with the function, its data and its sizes, and
-- keeps the others.
pub attach_ex-appends :
    (os : Os) (p p' : Dispatcher) (name : List ℕ) (foo : HostFunctionEx) (user_data : ℤ)
    (sz_arg sz_ret j : ℕ) (h h' : World)
    → j ≢ p.cnt_func
    → attach_host_function_ex os p name foo user_data sz_arg sz_ret h ≡ some ((pos 0, p'), h')
    → let e = p'.entries p.cnt_func in
      (p'.cnt_func ≡ p.cnt_func + 1)
      × (e.foo ≡ foo)
      × (e.user_data ≡ user_data)
      × (e.owns_user_data ≡ 0)
      × (e.sz_arg ≡ sz_arg)
      × (e.sz_ret ≡ sz_ret)
      × (p'.entries j ≡ p.entries j)
attach_ex-appends os p p' name foo user_data sz_arg sz_ret j h h' ne e =
    elim (attach_ex-cases os p p' name foo user_data sz_arg sz_ret h h' (pos 0) e) [
      | inl f ↦ absurd (cc (f.0))
      | inr o ↦
          let k =
            open_pipes-Keeps os name p.cnt_func (entered p foo user_data sz_arg sz_ret) p' h h'
              (pos 0) o in
          ground (
            arith,
            k.counted,
            k.same_code,
            k.same_data,
            k.same_owner,
            k.same_arg,
            k.same_ret,
            k.others j ne,
          )
    ]

-- An attachment that does not return 0 returns -1, -2, -3 or -5, and keeps the count of functions
-- and every entry but the one that it was about to fill.
pub attach_ex-restores :
    (os : Os) (p p' : Dispatcher) (name : List ℕ) (foo : HostFunctionEx) (user_data : ℤ)
    (sz_arg sz_ret j : ℕ) (h h' : World) (code : ℤ)
    → j ≢ p.cnt_func
    → code ≢ pos 0
    → attach_host_function_ex os p name foo user_data sz_arg sz_ret h ≡ some ((code, p'), h')
    → ((code ≡ negsuc 0) ⊎ (code ≡ negsuc 1) ⊎ (code ≡ negsuc 2) ⊎ (code ≡ negsuc 4))
      × (p'.cnt_func ≡ p.cnt_func)
      × (p'.entries j ≡ p.entries j)
attach_ex-restores os p p' name foo user_data sz_arg sz_ret j h h' code other failed e =
    elim (attach_ex-cases os p p' name foo user_data sz_arg sz_ret h h' code e) [
      | inl f ↦ ground arith
      | inr o ↦
          let k =
            open_pipes-Keeps os name p.cnt_func (entered p foo user_data sz_arg sz_ret) p' h h' code
              o in
          ground (arith, k.counted, k.codes_of, k.others j other)
    ]

open_response_blocks :
    (os : Os) (name : List ℕ) (id : ℕ) (p p' : Dispatcher) (h h' : World) (code : ℤ)
    → open_response os name p id h ≡ some ((code, p'), h')
    → (allocs h' ≡ allocs h) × (frees h' ≡ frees h)
unfolding open_response listen try_to_open_pipe
open_response_blocks os name id p p' h h' code e = ground arith

attach_ex_blocks :
    (os : Os) (p p' : Dispatcher) (name : List ℕ) (foo : HostFunctionEx) (user_data : ℤ)
    (sz_arg sz_ret : ℕ) (h h' : World) (code : ℤ)
    → attach_host_function_ex os p name foo user_data sz_arg sz_ret h ≡ some ((code, p'), h')
    → (allocs h' ≡ allocs h) × (frees h' ≡ frees h)
unfolding attach_host_function_ex open_pipes open_request try_to_open_pipe
attach_ex_blocks os p p' name foo user_data sz_arg sz_ret h h' code e =
    let id = p.cnt_func in
    let path = pipe_name_prefix ++ name ++ codes "_req" in
    let h₁ = (mkdir pipe_name_prefix, os.answer h (mkdir pipe_name_prefix)) ∷ h in
    let h₂ = (mkfifo path, os.answer h₁ (mkfifo path)) ∷ h₁ in
    let opened = os.answer h₂ (open_fifo path) in
    let h₃ = (open_fifo path, opened) ∷ h₂ in
    let p₁ = entered p foo user_data sz_arg sz_ret in
    let p₂ = set_entry p₁ id (record (p₁.entries id) { req_fd = opened.ret }) in
    ground (arith, open_response_blocks os name id p₂ p' h₃ h' code)

-- `attach_host_function` frees its context exactly when it does not keep it: a result of 0 leaves
-- one block more allocated than freed, any other result none.
pub attach-blocks :
    (os : Os) (p p' : Dispatcher) (name : List ℕ) (foo : List ℕ → Option (List ℕ))
    (sz_arg sz_ret : ℕ) (h h' : World) (code : ℤ)
    → attach_host_function os p name foo sz_arg sz_ret h ≡ some ((code, p'), h')
    → allocs h' + frees h ≡ allocs h + frees h' + (if is_nonzero code then 0 else 1)
unfolding attach_host_function
attach-blocks os p p' name foo sz_arg sz_ret h h' code e =
    let ctx = os.answer h (malloc context_size) in
    let h₁ = (malloc context_size, ctx) ∷ h in
    elim (Option-cases (attach_host_function_ex os p name (adapter foo) ctx.ret sz_arg sz_ret h₁)) [
      | inl undefined ↦ ground (arith, undefined)
      | inr (((c, q), h₂), run) ↦
          ground (
            arith,
            run,
            attach_ex_blocks os p q name (adapter foo) ctx.ret sz_arg sz_ret h₁ h₂ c run,
          )
    ]
