-- ===== src/Posix.antt =====
-- The calls that the code makes of the C library and the kernel, which are not part of the
-- repository: a parameter `Os` answers each of them, in any way that may depend on all the calls
-- before it. A run keeps the calls with their answers, the last one first.
pub mod Balance
use robot_ipc.Common.{ℕ, ◌<◌, Bool, true, List, [], ◌∷◌, Option, none, some, ℤ}

-- A text is the list of its bytes.
pub data Call : Type 0 where
  calloc malloc : (size : ℕ) → Call
  free : (pointer : ℤ) → Call
  mkdir mkfifo open_fifo : (path : List ℕ) → Call
  close : (fd : ℤ) → Call
  write : (fd : ℤ) (bytes : List ℕ) → Call
  read : (fd : ℤ) (count : ℕ) → Call
  -- the two ends are the first two numbers of the answer
  pipe : Call
  epoll_create1 : Call
  epoll_ctl_add : (epoll_fd fd : ℤ) (token : ℕ) → Call
  epoll_wait : (epoll_fd : ℤ) (max_events : ℕ) → Call
  pthread_create pthread_detach : Call
  -- `shm_open` with O_CREAT | O_EXCL, and without
  shm_create shm_open : (name : List ℕ) → Call
  shm_unlink : (name : List ℕ) → Call
  ftruncate : (fd : ℤ) (size : ℕ) → Call
  mmap : (size : ℕ) (fd : ℤ) → Call
  munmap : (pointer : ℤ) (size : ℕ) → Call
  -- `sigaction` that only asks, and one that installs a handler
  sigaction_query sigaction_install : Call
  usleep : (microseconds : ℕ) → Call
  -- an atomic access to the mapped memory, which other processes may store to
  atomic_load : (pointer : ℤ) (offset : ℕ) → Call
  atomic_store : (pointer : ℤ) (offset value : ℕ) → Call

-- An answer: the returned number or pointer, whether `errno` is EEXIST, and what was read: bytes,
-- or for `epoll_wait` the events, each with its EPOLLIN bit and its `data.u64`.
pub record Reply : Type 0 where
  pub ret : ℤ
  pub eexist : Bool
  pub bytes : List ℕ
  pub events : List (Bool × ℕ)

abbrev pub World : Type 0
World = List (Call × Reply)

-- The environment, with the system's PIPE_BUF.
pub record Os : Type 0 where
  pub answer : World → Call → Reply
  pub pipe_buf : ℕ

-- `none` is undefined behaviour: a write outside of an array.
abbrev pub M : Type 0 → Type 0
M A = World → Option (A × World)

abbrev pub pure : {A : Type 0} → A → M A
pure a h = some (a, h)

abbrev pub fault : {A : Type 0} → M A
fault h = none

-- A run goes on from the answer and the calls so far, unless it ended in a fault.
infixl 5 ◌>>=◌
abbrev pub ◌>>=◌ : {A B : Type 0} → M A → (A → M B) → M B
◌>>=◌ first next calls = elim (first calls) [
  | some (answer, later) ↦ next answer later
  | none ↦ none
]

infixl 5 ◌>>◌
abbrev pub ◌>>◌ : {A B : Type 0} → M A → M B → M B
first >> second = first >>= λ ignored. second

abbrev pub invoke : Os → Call → M Reply
invoke os c h = let r = os.answer h c in some (r, (c, r) ∷ h)
