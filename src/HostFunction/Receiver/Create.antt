-- ===== src/HostFunction/Receiver/Create.antt =====
-- `create_host_function_dispatcher` of src/host_function_receiver.c.
use robot_ipc.Common.{
  ℕ, ◌+◌, ◌*◌, ◌≡◌, inl, inr, refl, arith, Bool, false, ◌||◌, List, [], ◌∷◌, Option, none, some, ℤ,
  pos, negsuc, is_negative, is_nonzero, if◌then◌else◌, get_or, Bool-cases,
}
use robot_ipc.Posix.{
  Os, M, World, pure, fault, ◌>>=◌, ◌>>◌, invoke, malloc, free, close, pipe, epoll_create1,
  epoll_ctl_add, pthread_create,
}
use robot_ipc.Posix.Balance.{is_int, one_if, allocs_at, frees_at, count_of, is_int_null}
use robot_ipc.HostFunction.Receiver.{Entry, Dispatcher}
use robot_ipc.HostFunction.Receiver.Dispatch.{control_token}

-- sizeof(struct _s_host_function_dispatcher).
abbrev dispatcher_size : ℕ
dispatcher_size = 96

-- The sizes of the arrays, in the order of the fields.
abbrev array_sizes : ℕ → List ℕ
array_sizes n = n * 4 ∷ n * 4 ∷ n * 8 ∷ n * 8 ∷ n * 1 ∷ n * 8 ∷ n * 8 ∷ []

unfoldable pub allocate : Os → List ℕ → M (List ℤ)
allocate os [] = pure []
allocate os (size ∷ sizes) = do
  block ← invoke os (malloc size)
  blocks ← allocate os sizes
  pure (block.ret ∷ blocks)

abbrev pub has_null : List ℤ → Bool
has_null [] = false
has_null (pointer ∷ pointers) = is_int pointer (pos 0) || has_null pointers

unfoldable pub free_allocated : Os → List ℤ → M (Unit {0})
free_allocated os [] = pure tt
free_allocated os (pointer ∷ pointers) =
    let rest = free_allocated os pointers in
    if is_int pointer (pos 0) then rest else (do invoke os (free pointer); rest)

-- The code after FAILED_EPOLL_CTL and FAILED_EPOLL: the pipes stay open.
abbrev failed_epoll : Os → (address : ℤ) → M (Option Dispatcher)
failed_epoll os address = do invoke os (free address); pure none

abbrev failed_pthread : Os → (address epoll_fd : ℤ) → M (Option Dispatcher)
failed_pthread os address epoll_fd = do invoke os (close epoll_fd); failed_epoll os address

-- From the start of the thread on. `entries` is what the new arrays hold, which nobody has written.
unfoldable pub fill : Os → Dispatcher → (n : ℕ) → M (Option Dispatcher)
fill os p n = do
  thread ← invoke os pthread_create
  if is_nonzero thread.ret then failed_pthread os p.address p.epoll_fd else (do
    arrays ← allocate os (array_sizes n)
    if has_null arrays
        then (do free_allocated os arrays; failed_pthread os p.address p.epoll_fd)
        else pure (some (record p { arrays = arrays })))

-- A result of NULL of the first `malloc` is written through.
unfoldable pub create_host_function_dispatcher : Os → (ℕ → Entry) → (n : ℕ) → M (Option Dispatcher)
unfolding fill
create_host_function_dispatcher os entries n = do
  p ← invoke os (malloc dispatcher_size)
  if is_int p.ret (pos 0) then fault else (do
    to_daemon ← invoke os pipe
    if is_int to_daemon.ret (negsuc 0) then failed_epoll os p.ret else (do
      from_daemon ← invoke os pipe
      if is_int from_daemon.ret (negsuc 0) then failed_epoll os p.ret else (do
        epoll ← invoke os epoll_create1
        if is_negative epoll.ret then failed_epoll os p.ret else (do
          added ←
              invoke os (epoll_ctl_add epoll.ret (pos (get_or to_daemon.bytes 0 0)) control_token)
          if is_int added.ret (negsuc 0)
              then failed_pthread os p.ret epoll.ret
              else fill os
                  (record {
                    address = p.ret;
                    epoll_fd = epoll.ret;
                    to_daemon_read = pos (get_or to_daemon.bytes 0 0);
                    to_daemon_write = pos (get_or to_daemon.bytes 1 0);
                    from_daemon_read = pos (get_or from_daemon.bytes 0 0);
                    from_daemon_write = pos (get_or from_daemon.bytes 1 0);
                    cnt_func = 0;
                    capacity = n;
                    arrays = [];
                    entries = entries;
                  })
                  n))))

allocate_lem :
    (os : Os) (block : ℤ) (sizes : List ℕ) (h : World)
    → (pointers : List ℤ) × (h' : World) × (allocate os sizes h ≡ some (pointers, h'))
      × (allocs_at block h' ≡ allocs_at block h + count_of block pointers)
      × (frees_at block h' ≡ frees_at block h)
unfolding allocate
allocate_lem os block [] h = ([], h, refl, omega arith, refl)
allocate_lem os block (size ∷ sizes) h =
    let made_block = os.answer h (malloc size) in
    let h₁ = (malloc size, made_block) ∷ h in
    let (pointers, h', run, made, freed) = allocate_lem os block sizes h₁ in
    (made_block.ret ∷ pointers, h', ground (arith, run), omega (arith, made), omega (arith, freed))

free_allocated_lem :
    (os : Os) (block : ℤ) (pointers : List ℤ) (h : World)
    → is_int block (pos 0) ≡ false
    → (h' : World) × (free_allocated os pointers h ≡ some (tt, h'))
      × (allocs_at block h' ≡ allocs_at block h)
      × (frees_at block h' ≡ frees_at block h + count_of block pointers)
unfolding free_allocated
free_allocated_lem os block [] h there = (h, refl, refl, omega arith)
free_allocated_lem os block (pointer ∷ pointers) h there =
    elim (Bool-cases (is_int pointer (pos 0))) [
      | inl null ↦
          let (h', run, made, freed) = free_allocated_lem os block pointers h there in
          (
            h',
            rw null run,
            omega (arith, made),
            rw (is_int_null pointer block there null) (omega (arith, freed)),
          )
      | inr given ↦
          let h₁ = (free pointer, os.answer h (free pointer)) ∷ h in
          let (h', run, made, freed) = free_allocated_lem os block pointers h₁ there in
          (h', rw given run, omega (arith, made), omega (arith, freed))
    ]

-- How often an address is among the blocks of a dispatcher: itself and its arrays.
abbrev pub dispatcher_blocks : ℤ → Option Dispatcher → ℕ
dispatcher_blocks block none = 0
dispatcher_blocks block (some p) = one_if (is_int p.address block) + count_of block p.arrays

fill_blocks :
    (os : Os) (p : Dispatcher) (n : ℕ) (block : ℤ) (h h' : World) (o : Option Dispatcher)
    → is_int block (pos 0) ≡ false
    → fill os p n h ≡ some (o, h')
    → allocs_at block h' + frees_at block h + one_if (is_int p.address block)
      ≡ allocs_at block h + frees_at block h' + dispatcher_blocks block o
unfolding fill
fill_blocks os p n block h h' o there e =
    let h₁ = (pthread_create, os.answer h pthread_create) ∷ h in
    let (pointers, h₂, run, made, freed) = allocate_lem os block (array_sizes n) h₁ in
    let (h₃, undo, undo_made, undo_freed) = free_allocated_lem os block pointers h₂ there in
    ground (arith, run, made, freed, undo, undo_made, undo_freed)

-- Where the creation of a dispatcher ends, its blocks balance, each by its address: for every address
-- but NULL, the creation was handed it as often as it freed it, and once more where it is that of the
-- dispatcher that is returned, or of one of its arrays. Where NULL is returned, all that was
-- allocated is freed.
pub create-blocks :
    (os : Os) (entries : ℕ → Entry) (n : ℕ) (block : ℤ) (h h' : World) (o : Option Dispatcher)
    → is_int block (pos 0) ≡ false
    → create_host_function_dispatcher os entries n h ≡ some (o, h')
    → allocs_at block h' + frees_at block h
      ≡ allocs_at block h + frees_at block h' + dispatcher_blocks block o
unfolding create_host_function_dispatcher
create-blocks os entries n block h h' o there e =
    let p = os.answer h (malloc dispatcher_size) in
    let h₁ = (malloc dispatcher_size, p) ∷ h in
    let to_daemon = os.answer h₁ pipe in
    let h₂ = (pipe, to_daemon) ∷ h₁ in
    let from_daemon = os.answer h₂ pipe in
    let h₃ = (pipe, from_daemon) ∷ h₂ in
    let epoll = os.answer h₃ epoll_create1 in
    let h₄ = (epoll_create1, epoll) ∷ h₃ in
    let control = pos (get_or to_daemon.bytes 0 0) in
    let add = epoll_ctl_add epoll.ret control control_token in
    let h₅ = (add, os.answer h₄ add) ∷ h₄ in
    let start : Dispatcher = record {
      address = p.ret;
      epoll_fd = epoll.ret;
      to_daemon_read = control;
      to_daemon_write = pos (get_or to_daemon.bytes 1 0);
      from_daemon_read = pos (get_or from_daemon.bytes 0 0);
      from_daemon_write = pos (get_or from_daemon.bytes 1 0);
      cnt_func = 0;
      capacity = n;
      arrays = [];
      entries = entries;
    } in
    ground (arith, fill_blocks os start n block h₅ h' o there)
