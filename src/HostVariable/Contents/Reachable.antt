-- ===== src/HostVariable/Contents/Reachable.antt =====
-- The invariant holds from the start on.
use robot_ipc.Common.{
  ℕ, ◌+◌, ◌≡◌, refl, arith, ◌==◌, ==_iff, leb, ◌||◌, true, each_below, each_below_sound,
  total-const_zero,
}
use robot_ipc.Word.{nibble}
use robot_ipc.HostVariable.Flags.{init_flags}
use robot_ipc.HostVariable.Flags.Target.{init_flags-eq}
use robot_ipc.HostVariable.Lock.{weight, IsLocked}
use robot_ipc.HostVariable.System.{System, holds, init, Reach, start, later}
use robot_ipc.HostVariable.Contents.{Inv}
use robot_ipc.HostVariable.Contents.Preserve.{Step-Inv}

init_counts :
    (nibble init_flags 15 ≡ 0)
    × (nibble init_flags 0 ≡ 0)
    × (each_below (λ b. nibble init_flags b == 0) 4 ≡ true)
    × (each_below (λ b. leb (b + 1) 4 || nibble init_flags b == 15) 15 ≡ true)
unfolding nibble each_below
init_counts = rw init_flags-eq (refl, refl, refl, refl)

init-IsLocked : (n : ℕ) (bytes : ℕ → ℕ) → IsLocked n init_flags (holds (init bytes).process)
init-IsLocked n bytes = record {
  fits = rw init_flags-eq (omega arith);
  target = omega (arith, init_counts.0);
  open_target = rw init_counts.0 (omega (arith, init_counts.1));
  closed = λ b lo hi. ground (
    arith,
    each_below_sound (λ b. leb (b + 1) 4 || nibble init_flags b == 15) 15 init_counts.3 b hi,
  );
  counted = λ b hb. omega (
    arith,
    (==_iff _ 0).0 (each_below_sound (λ b. nibble init_flags b == 0) 4 init_counts.2 b hb),
    total-const_zero (weight b) n (holds (init bytes).process) (λ i. refl),
  );
  ranges = λ i hi. tt;
}

init-Inv : (n size : ℕ) (bytes : ℕ → ℕ) → Inv n size (init bytes)
init-Inv n size bytes = record {
  locked = init-IsLocked n bytes;
  locals = λ i hi. tt;
  live = λ b l. (omega arith, λ j hj. absurd (omega arith));
  seen = λ i b hi h. cc;
}

-- In every state that the processes reach from a new variable, in any interleaving: each count in
-- the flags is that of the processes that hold the buffer, the target can be acquired, each
-- process's copied bytes agree with its buffer, and the target and every buffer that is read hold
-- the value that was last published in them.
pub Reach-Inv : {n size : ℕ} {bytes : ℕ → ℕ} {s : System} → Reach n size bytes s → Inv n size s
Reach-Inv {n} {size} {bytes} start = init-Inv n size bytes
Reach-Inv (later r st) = Step-Inv (Reach-Inv r) st
