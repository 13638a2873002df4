-- ===== src/Posix/Balance.antt =====
-- What a run has opened and closed, and allocated and freed.
use robot_ipc.Common.{
  ℕ, ◌+◌, ◌≡◌, ◌==◌, Bool, true, false, not, List, [], ◌∷◌, refl, arith, ℤ, pos, negsuc,
  if◌then◌else◌, get_or,
}
use robot_ipc.Posix.{
  Call, calloc, malloc, free, open_fifo, close, Reply, World, pipe, epoll_create1, shm_create,
  shm_open,
}

abbrev pub is_int : ℤ → ℤ → Bool
is_int (pos a) (pos b) = a == b
is_int (negsuc a) (negsuc b) = a == b
is_int a b = false

abbrev pub one_if : Bool → ℕ
one_if b = if b then 1 else 0

-- A descriptor is a number that is not negative.
abbrev opens_call : ℕ → Call → Reply → ℕ
opens_call fd (open_fifo path) r = one_if (is_int r.ret (pos fd))
opens_call fd (shm_create name) r = one_if (is_int r.ret (pos fd))
opens_call fd (shm_open name) r = one_if (is_int r.ret (pos fd))
opens_call fd epoll_create1 r = one_if (is_int r.ret (pos fd))
opens_call fd pipe r =
    if is_int r.ret (pos 0)
    then one_if (get_or r.bytes 0 0 == fd) + one_if (get_or r.bytes 1 0 == fd)
    else 0
opens_call fd c r = 0

abbrev closes_call : ℕ → Call → ℕ
closes_call fd (close d) = one_if (is_int d (pos fd))
closes_call fd c = 0

abbrev allocates : Call → ℤ → ℕ
allocates (calloc size) ret = one_if (not (is_int ret (pos 0)))
allocates (malloc size) ret = one_if (not (is_int ret (pos 0)))
allocates c ret = 0

abbrev frees_call : Call → ℕ
frees_call (free p) = 1
frees_call c = 0

-- How often `fd` was handed out by the system, and how often it was closed.
abbrev pub opens : ℕ → World → ℕ
opens fd [] = 0
opens fd ((c, r) ∷ h) = opens_call fd c r + opens fd h

abbrev pub closes : ℕ → World → ℕ
closes fd [] = 0
closes fd ((c, r) ∷ h) = closes_call fd c + closes fd h

-- How many blocks were allocated, and how often `free` was called. NULL is 0.
abbrev pub allocs : World → ℕ
allocs [] = 0
allocs ((c, r) ∷ h) = allocates c r.ret + allocs h

abbrev pub frees : World → ℕ
frees [] = 0
frees ((c, r) ∷ h) = frees_call c + frees h

-- How often the system handed out the address `block`, and how often `free` was called for it.
abbrev allocates_at : ℤ → Call → ℤ → ℕ
allocates_at block (calloc size) ret = one_if (is_int ret block)
allocates_at block (malloc size) ret = one_if (is_int ret block)
allocates_at block c ret = 0

abbrev frees_call_at : ℤ → Call → ℕ
frees_call_at block (free p) = one_if (is_int p block)
frees_call_at block c = 0

abbrev pub allocs_at : ℤ → World → ℕ
allocs_at block [] = 0
allocs_at block ((c, r) ∷ h) = allocates_at block c r.ret + allocs_at block h

abbrev pub frees_at : ℤ → World → ℕ
frees_at block [] = 0
frees_at block ((c, r) ∷ h) = frees_call_at block c + frees_at block h

-- How often an address is in a list.
abbrev pub count_of : ℤ → List ℤ → ℕ
count_of block [] = 0
count_of block (pointer ∷ pointers) = one_if (is_int pointer block) + count_of block pointers

pub is_int_null :
    (x block : ℤ) → is_int block (pos 0) ≡ false → is_int x (pos 0) ≡ true → is_int x block ≡ false
is_int_null (pos n) (pos m) there null = ground (arith, there, null)
is_int_null (pos n) (negsuc m) there null = refl
is_int_null (negsuc n) block there null = cc (null)

-- From `h` to `h'` each descriptor was closed as often as it was opened.
abbrev pub FdsBalance : World → World → Type 0
FdsBalance h h' = (fd : ℕ) → opens fd h' + closes fd h ≡ opens fd h + closes fd h'

abbrev pub BlocksBalance : World → World → Type 0
BlocksBalance h h' = allocs h' + frees h ≡ allocs h + frees h'
