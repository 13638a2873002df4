-- ===== src/HostVariable/Flags/Target.antt =====
-- The fields of the word of flags, and what it means that one of them is stored.
use robot_ipc.Common.{ℕ, ◌<◌, ◌≡◌, ◌≢◌, refl}
use robot_ipc.Word.{u64_mod, ◌<<<◌, nibble, top_field}
use robot_ipc.HostVariable.Flags.{init_flags, target_of}

pub target-nibble : (w : ℕ) → w < u64_mod → target_of w ≡ nibble w 15
unfolding target_of
target-nibble w h = top_field w h

-- `w'` is `w` with `v` in field `t`.
pub record Stores (w t v w' : ℕ) : Type 0 where
  pub fits : w' < u64_mod
  pub stored : nibble w' t ≡ v
  pub others : (i : ℕ) → i < 16 → t ≢ i → nibble w' i ≡ nibble w i

pub init_flags-eq : init_flags ≡ 0x0FFFFFFFFFFF0000
unfolding init_flags ◌<<<◌
init_flags-eq = refl
