-- ===== src/HostVariable/Lock.antt =====
-- The lock that the flags implement, as a specification: what a process holds, how the word may
-- change with it, and the invariant that ties the word to all the processes. Any number of
-- processes shares the word.
pub mod Exclusion
pub mod Capacity
pub mod Preserve
use robot_ipc.Common.{ℕ, ◌+◌, ◌-◌, ◌<◌, ◌≤◌, ◌≡◌, ◌==◌, if◌then◌else◌, total}
use robot_ipc.Word.{u64_mod, nibble}
use robot_ipc.HostVariable.Flags.Target.{Stores}
use robot_ipc.HostVariable.Flags.Writers.{IsFree, Publishes}
use robot_ipc.HostVariable.Flags.{shm_buffer_cnt}

pub data Hold : Type 0 where
  free : Hold
  shared : (buffer : ℕ) → Hold
  exclusive : (buffer : ℕ) → Hold

-- What a hold adds to the count of buffer `b`.
abbrev pub weight : ℕ → Hold → ℕ
weight b free = 0
weight b (shared c) = if c == b then 1 else 0
weight b (exclusive c) = if c == b then 15 else 0

-- The change of the word with one process's hold.
pub data LockStep (w : ℕ) : Hold → ℕ → Hold → Type 0 where
  keep : {h : Hold} → LockStep w h w h
  acquire :
      {t w' : ℕ}
      → t ≡ nibble w 15
      → nibble w t < 14
      → Stores w t (nibble w t + 1) w'
      → LockStep w free w' (shared t)
  release : {t w' : ℕ} → Stores w t (nibble w t - 1) w' → LockStep w (shared t) w' free
  take : {b w' : ℕ} → b < 15 → IsFree w b → Stores w b 15 w' → LockStep w free w' (exclusive b)
  publish : {b w' : ℕ} → Publishes w b w' → LockStep w (exclusive b) w' free
  drop : {b w' : ℕ} → Stores w b 0 w' → LockStep w (exclusive b) w' free

abbrev pub InRange : Hold → Type 0
InRange free = Unit
InRange (shared b) = b < shm_buffer_cnt
InRange (exclusive b) = b < shm_buffer_cnt

-- The word `w` agrees with the holds of `n` processes.
pub record IsLocked (n w : ℕ) (holds : ℕ → Hold) : Type 0 where
  pub fits : w < u64_mod
  pub target : nibble w 15 < shm_buffer_cnt
  pub open_target : nibble w (nibble w 15) < 15
  pub closed : (b : ℕ) → shm_buffer_cnt ≤ b → b < 15 → nibble w b ≡ 15
  pub counted : (b : ℕ) → b < shm_buffer_cnt → nibble w b ≡ total (weight b) n holds
  pub ranges : (i : ℕ) → i < n → InRange (holds i)
