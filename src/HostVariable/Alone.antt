-- ===== src/HostVariable/Alone.antt =====
-- `read_host_variable` and `write_host_variable` of src/host_variable.c by a process that no other
-- interrupts: the machine of `Process`, run on.
pub mod Writing
pub mod Reading
pub mod RoundTrip
use robot_ipc.Common.{ℕ, zero, suc, ◌+◌, ◌≡◌, refl, ◌∙◌, arith, subst}
use robot_ipc.HostVariable.Process.{Next, advance}

abbrev pub step : (size : ℕ) → Next → Next
step size s = advance size s.mem s.process.should_wait s.process.pc

-- `steps` accesses, one after the other.
unfoldable pub run : (size steps : ℕ) → Next → Next
run size zero s = s
run size (suc steps) s = run size steps (step size s)

pub run-add : (size a b : ℕ) (s : Next) → run size (a + b) s ≡ run size b (run size a s)
unfolding run
run-add size zero b s = let e : 0 + b ≡ b = omega arith in rw e refl
run-add size (suc a) b s =
    let e : suc a + b ≡ suc (a + b) = omega arith in rw e (run-add size a b (step size s))
