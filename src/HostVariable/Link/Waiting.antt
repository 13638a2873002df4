-- ===== src/HostVariable/Link/Waiting.antt =====
-- The process that did not create the variable waits for the one that did.
use robot_ipc.Common.{
  ℕ, zero, suc, ◌+◌, ◌<◌, ◌≤◌, ◌≡◌, ◌≢◌, inl, inr, arith, Bool, true, false, List, [], ◌∷◌, some, ℤ,
  pos, Bool-cases,
}
use robot_ipc.Posix.{Os, World, Call, shm_create, shm_open, ftruncate, mmap, usleep, atomic_load}
use robot_ipc.Posix.Balance.{is_int}
use robot_ipc.HostVariable.Link.{
  created_at, full_size, Linked, waiting, link_variable_failed, settle, await_created, map_variable,
  open_variable,
}
use robot_ipc.HostVariable.Link.Settling.{init_variable_lem}
use robot_ipc.HostVariable.Link.Linking.{open_variable-Linkage}

abbrev sleeps_call : Call → ℕ
sleeps_call (usleep microseconds) = 1
sleeps_call c = 0

-- How often the process has slept.
abbrev pub sleeps : World → ℕ
sleeps [] = 0
sleeps ((c, r) ∷ h) = sleeps_call c + sleeps h

-- The creator has stored `created` by the time that this process has slept `k` times.
abbrev pub IsCreatedBy : Os → ℕ → Type 0
IsCreatedBy os k =
    (w : World) (p : ℤ)
    → k ≤ sleeps w
    → is_int (os.answer w (atomic_load p created_at)).ret (pos 0) ≡ false

module _ (os : Os) (k : ℕ) (by : IsCreatedBy os k) where
  await_created-sees :
      (p : ℤ) (polls : ℕ) (h : World)
      → k < polls + sleeps h
      → 0 < polls
      → (h' : World) × (await_created os p polls h ≡ some (true, h'))
  unfolding await_created
  await_created-sees p zero h enough some_polls = absurd (omega arith)
  await_created-sees p (suc polls) h enough some_polls =
      let created = os.answer h (atomic_load p created_at) in
      let h₁ = (atomic_load p created_at, created) ∷ h in
      let h₂ = (usleep 1000, os.answer h₁ (usleep 1000)) ∷ h₁ in
      elim (Bool-cases (is_int created.ret (pos 0))) [
        | inl unset ↦
            let early : sleeps h < k = ground (arith, unset, by h p) in
            let (h', run) = await_created-sees p polls h₂ (omega arith) (omega arith) in
            (h', ground (arith, unset, run))
        | inr set ↦ (h₁, ground (arith, set))
      ]

  settle-ne-waiting :
      (polls : ℕ) (d p : ℤ) (is_create : Bool) (h h' : World)
      → k < polls + sleeps h
      → 0 < polls
      → settle os polls d p is_create h ≢ some (waiting, h')
  unfolding settle
  settle-ne-waiting polls d p true h h' enough some_polls e =
      let (h₁, run, made) = init_variable_lem os p 0 h in ground (arith, run)
  settle-ne-waiting polls d p false h h' enough some_polls e =
      let (h₁, run) = await_created-sees p polls h enough some_polls in ground (arith, run)

  map_variable-ne-waiting :
      (name : List ℕ) (polls size : ℕ) (d : ℤ) (is_create : Bool) (h h' : World)
      → k < polls + sleeps h
      → 0 < polls
      → map_variable os name polls size d is_create h ≢ some (waiting, h')
  unfolding map_variable link_variable_failed
  map_variable-ne-waiting name polls size d is_create h h' enough some_polls e =
      let sized = os.answer h (ftruncate d (full_size size)) in
      let h₁ = (ftruncate d (full_size size), sized) ∷ h in
      let p = os.answer h₁ (mmap (full_size size) d) in
      let h₂ = (mmap (full_size size) d, p) ∷ h₁ in
      ground (arith, settle-ne-waiting polls d p.ret is_create h₂ h')

  open_variable-ne-waiting :
      (name : List ℕ) (polls size : ℕ) (h h' : World)
      → k < polls + sleeps h
      → 0 < polls
      → open_variable os name polls size h ≢ some (waiting, h')
  unfolding open_variable link_variable_failed
  open_variable-ne-waiting name polls size h h' enough some_polls e =
      let made = os.answer h (shm_create name) in
      let h₁ = (shm_create name, made) ∷ h in
      let opened = os.answer h₁ (shm_open name) in
      let h₂ = (shm_open name, opened) ∷ h₁ in
      ground (
        arith,
        map_variable-ne-waiting name polls size made.ret true h₁ h',
        map_variable-ne-waiting name polls size opened.ret false h₂ h',
      )

-- Where the creator sets `created` before this process has slept `k` times, more than `k` rounds of
-- the loop are enough: the variable is linked, or NULL is returned.
pub open_variable_finishes :
    (os : Os) (name : List ℕ) (k polls size : ℕ) (h : World)
    → IsCreatedBy os k
    → k < polls
    → (result : Linked) × (h' : World) × (open_variable os name polls size h ≡ some (result, h'))
      × (result ≢ waiting)
open_variable_finishes os name k polls size h by enough =
    let (result, h', run, left) = open_variable-Linkage os name polls size 0 h in
    (
      result,
      h',
      run,
      λ waits.
          open_variable-ne-waiting os k by name polls size h h' (omega arith) (omega arith)
            (rw waits at run),
    )
