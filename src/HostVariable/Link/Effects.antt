-- ===== src/HostVariable/Link/Effects.antt =====
-- What the calls of `link_host_variable` leave behind: descriptors, mappings, names and stores.
use robot_ipc.Common.{ℕ, ◌+◌, ◌≡◌, Bool, not, List, [], ◌∷◌, ◌++◌, ℤ, pos, negsuc, if◌then◌else◌}
use robot_ipc.Posix.{World, Call, Reply, shm_unlink, mmap, munmap, atomic_store}
use robot_ipc.Posix.Balance.{is_int, one_if, opens, closes}
use robot_ipc.HostVariable.Flags.{init_flags}
use robot_ipc.HostVariable.Link.{created_at, flags_at, timestamp_at, Linked, null, waiting, linked}

-- The stores to the mapped memory, the last one first, each with its offset.
abbrev pub stored : World → List (ℕ × ℕ)
stored [] = []
stored ((atomic_store p offset value, r) ∷ h) = (offset, value) ∷ stored h
stored ((c, r) ∷ h) = stored h

-- How often memory was mapped, and unmapped, and how often a name was removed.
abbrev maps_call : Call → Reply → ℕ
maps_call (mmap size fd) r = one_if (not (is_int r.ret (negsuc 0)))
maps_call c r = 0

abbrev pub maps : World → ℕ
maps [] = 0
maps ((c, r) ∷ h) = maps_call c r + maps h

abbrev unmaps_call : Call → ℕ
unmaps_call (munmap p size) = 1
unmaps_call c = 0

abbrev pub unmaps : World → ℕ
unmaps [] = 0
unmaps ((c, r) ∷ h) = unmaps_call c + unmaps h

abbrev removes_call : Call → ℕ
removes_call (shm_unlink name) = 1
removes_call c = 0

abbrev pub removes : World → ℕ
removes [] = 0
removes ((c, r) ∷ h) = removes_call c + removes h

-- The stores into a new variable, the last one first: `created` is 1 only after all the others.
abbrev pub initial_stores : List (ℕ × ℕ)
initial_stores =
    (created_at, 1)
    ∷ (timestamp_at 3, 0)
    ∷ (timestamp_at 2, 0)
    ∷ (timestamp_at 1, 0)
    ∷ (timestamp_at 0, 0)
    ∷ (flags_at, init_flags)
    ∷ (created_at, 0)
    ∷ []

-- From `h` to `h'` only mappings and names that `m` and `r` count, stores `s`, and descriptors that
-- were closed again, but for `d` descriptors `fd` that are closed more often than opened.
pub record Leaves (fd d m r : ℕ) (s : List (ℕ × ℕ)) (h h' : World) : Type 0 where
  pub descriptors : opens fd h' + closes fd h + d ≡ opens fd h + closes fd h'
  pub mappings : maps h' + unmaps h ≡ maps h + unmaps h' + m
  pub names : removes h' ≡ removes h + r
  pub stores : stored h' ≡ s ++ stored h

abbrev pub mapped : Linked → ℕ
mapped null = 0
mapped waiting = 1
mapped (linked address) = 1

abbrev pub removed : Linked → ℕ
removed null = 1
removed waiting = 0
removed (linked address) = 0

-- A descriptor that is still open: that of a process that waits.
abbrev pub held : ℕ → ℤ → Linked → ℕ
held fd d null = one_if (is_int d (pos fd))
held fd d waiting = 0
held fd d (linked address) = one_if (is_int d (pos fd))

abbrev pub initial : Bool → Linked → List (ℕ × ℕ)
initial is_create null = []
initial is_create waiting = []
initial is_create (linked address) = if is_create then initial_stores else []
