-- ===== src/HostFunction/Receiver/Entries.antt =====
-- What an attachment leaves of the dispatcher.
use robot_ipc.Common.{
  ℕ, ◌-◌, ◌≡◌, ◌≢◌, ◌⊎◌, inl, inr, refl, sym, subst, arith, not, ◌&&◌, List, ◌∷◌, ◌++◌, some, ℤ,
  pos, negsuc, is_nonzero, if◌then◌else◌,
}
use robot_ipc.Posix.{Os, World, mkdir, mkfifo, open_fifo}
use robot_ipc.Posix.Balance.{is_int}
use robot_ipc.HostFunction.Pipe.{codes, pipe_name_prefix}
use robot_ipc.HostFunction.Receiver.{
  Entry, Dispatcher, try_to_open_pipe, set_entry, listen, open_response, open_request, open_pipes,
}

-- After the arrays are written: an error takes the count back, and only the descriptors of entry
-- `id` change.
pub record Keeps (id : ℕ) (p p' : Dispatcher) (code : ℤ) : Type 0 where
  pub counted : p'.cnt_func ≡ (if is_nonzero code then p.cnt_func - 1 else p.cnt_func)
  pub same_code : (p'.entries id).foo ≡ (p.entries id).foo
  pub same_data : (p'.entries id).user_data ≡ (p.entries id).user_data
  pub same_owner : (p'.entries id).owns_user_data ≡ (p.entries id).owns_user_data
  pub same_arg : (p'.entries id).sz_arg ≡ (p.entries id).sz_arg
  pub same_ret : (p'.entries id).sz_ret ≡ (p.entries id).sz_ret
  pub others : (j : ℕ) → j ≢ id → p'.entries j ≡ p.entries j
  pub same_epoll : p'.epoll_fd ≡ p.epoll_fd
  pub same_capacity : p'.capacity ≡ p.capacity
  pub codes_of : (code ≡ pos 0) ⊎ (code ≡ negsuc 0) ⊎ (code ≡ negsuc 1) ⊎ (code ≡ negsuc 2)

-- Storing one of the two descriptors changes no other part of the dispatcher.
Keeps-set_entry :
    (id : ℕ) (p p' : Dispatcher) (code : ℤ) (e : Entry)
    → e.foo ≡ (p.entries id).foo
    → e.user_data ≡ (p.entries id).user_data
    → e.owns_user_data ≡ (p.entries id).owns_user_data
    → e.sz_arg ≡ (p.entries id).sz_arg
    → e.sz_ret ≡ (p.entries id).sz_ret
    → Keeps id (set_entry p id e) p' code
    → Keeps id p p' code
Keeps-set_entry id p p' code e foo same_user owner arg ret k = record {
  counted = k.counted;
  same_code = ground (arith, k.same_code);
  same_data = ground (arith, k.same_data);
  same_owner = ground (arith, k.same_owner);
  same_arg = ground (arith, k.same_arg);
  same_ret = ground (arith, k.same_ret);
  others = λ j ne. ground (arith, k.others j ne);
  same_epoll = k.same_epoll;
  same_capacity = k.same_capacity;
  codes_of = k.codes_of;
}

-- An error before the pipe is listened to.
Keeps-failed :
    (id : ℕ) (p p' : Dispatcher) (code : ℤ)
    → (code ≡ negsuc 0) ⊎ (code ≡ negsuc 1) ⊎ (code ≡ negsuc 2)
    → p' ≡ record p { cnt_func = p.cnt_func - 1 }
    → Keeps id p p' code
Keeps-failed id p p' code failed e =
    subst (λ q. Keeps id p q code) (sym e)
      (record {
        counted = ground arith;
        same_code = refl;
        same_data = refl;
        same_owner = refl;
        same_arg = refl;
        same_ret = refl;
        others = λ j ne. refl;
        same_epoll = refl;
        same_capacity = refl;
        codes_of = inr failed;
      })

abbrev with_req : Dispatcher → ℕ → ℤ → Dispatcher
with_req p id fd = set_entry p id (record (p.entries id) { req_fd = fd })

abbrev with_res : Dispatcher → ℕ → ℤ → Dispatcher
with_res p id fd = set_entry p id (record (p.entries id) { res_fd = fd })

module _ (os : Os) (name : List ℕ) (id : ℕ) where
  listen-Keeps :
      (p p' : Dispatcher) (h h' : World) (code : ℤ)
      → listen os p id h ≡ some ((code, p'), h')
      → Keeps id p p' code
  unfolding listen
  listen-Keeps p p' h h' code e = ground arith

  open_response-cases :
      (p p' : Dispatcher) (h h' : World) (code : ℤ)
      → open_response os name p id h ≡ some ((code, p'), h')
      → (fd : ℤ) × (w : World) × (((code ≡ negsuc 1)
            × (p' ≡ (let q = with_res p id fd in record q { cnt_func = q.cnt_func - 1 })))
          ⊎ (listen os (with_res p id fd) id w ≡ some ((code, p'), h')))
  unfolding open_response try_to_open_pipe
  open_response-cases p p' h h' code e =
      let path = pipe_name_prefix ++ name ++ codes "_res" in
      let made = os.answer h (mkfifo path) in
      let h₁ = (mkfifo path, made) ∷ h in
      let opened = os.answer h₁ (open_fifo path) in
      let refused = is_int made.ret (negsuc 0) && not made.eexist in
      (if refused then negsuc 0 else opened.ret, (open_fifo path, opened) ∷ h₁, ground arith)

  open_response-Keeps :
      (p p' : Dispatcher) (h h' : World) (code : ℤ)
      → open_response os name p id h ≡ some ((code, p'), h')
      → Keeps id p p' code
  open_response-Keeps p p' h h' code e =
      let (fd, w, c) = open_response-cases p p' h h' code e in
      Keeps-set_entry id p p' code (record (p.entries id) { res_fd = fd }) refl refl refl refl refl
        (elim c [
          | inl f ↦ Keeps-failed id (with_res p id fd) p' code (inr (inl f.0)) f.1
          | inr l ↦ listen-Keeps (with_res p id fd) p' w h' code l
        ])

  open_request-cases :
      (p p' : Dispatcher) (h h' : World) (code : ℤ)
      → open_request os name p id h ≡ some ((code, p'), h')
      → (fd : ℤ) × (w : World) × (((code ≡ negsuc 1)
            × (p' ≡ (let q = with_req p id fd in record q { cnt_func = q.cnt_func - 1 })))
          ⊎ (open_response os name (with_req p id fd) id w ≡ some ((code, p'), h')))
  unfolding open_request try_to_open_pipe
  open_request-cases p p' h h' code e =
      let path = pipe_name_prefix ++ name ++ codes "_req" in
      let made = os.answer h (mkfifo path) in
      let h₁ = (mkfifo path, made) ∷ h in
      let opened = os.answer h₁ (open_fifo path) in
      let refused = is_int made.ret (negsuc 0) && not made.eexist in
      (if refused then negsuc 0 else opened.ret, (open_fifo path, opened) ∷ h₁, ground arith)

  open_request-Keeps :
      (p p' : Dispatcher) (h h' : World) (code : ℤ)
      → open_request os name p id h ≡ some ((code, p'), h')
      → Keeps id p p' code
  open_request-Keeps p p' h h' code e =
      let (fd, w, c) = open_request-cases p p' h h' code e in
      Keeps-set_entry id p p' code (record (p.entries id) { req_fd = fd }) refl refl refl refl refl
        (elim c [
          | inl f ↦ Keeps-failed id (with_req p id fd) p' code (inr (inl f.0)) f.1
          | inr l ↦ open_response-Keeps (with_req p id fd) p' w h' code l
        ])

  open_pipes-cases :
      (p p' : Dispatcher) (h h' : World) (code : ℤ)
      → open_pipes os name p id h ≡ some ((code, p'), h')
      → (w : World) × (((code ≡ negsuc 0) × (p' ≡ record p { cnt_func = p.cnt_func - 1 }))
          ⊎ (open_request os name p id w ≡ some ((code, p'), h')))
  unfolding open_pipes
  open_pipes-cases p p' h h' code e =
      ((mkdir pipe_name_prefix, os.answer h (mkdir pipe_name_prefix)) ∷ h, ground arith)

  pub open_pipes-Keeps :
      (p p' : Dispatcher) (h h' : World) (code : ℤ)
      → open_pipes os name p id h ≡ some ((code, p'), h')
      → Keeps id p p' code
  open_pipes-Keeps p p' h h' code e =
      let (w, c) = open_pipes-cases p p' h h' code e in
      elim c [
        | inl f ↦ Keeps-failed id p p' code (inl f.0) f.1
        | inr l ↦ open_request-Keeps p p' w h' code l
      ]
