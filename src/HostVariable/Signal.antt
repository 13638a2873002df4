-- ===== src/HostVariable/Signal.antt =====
-- `__handler_wrap` and `_set_handler_wrap` of src/host_variable.c, which keep a keyboard interrupt
-- from ending a process within a read or a write. The system's table of handlers is part of the
-- state; what `sigaction` returns is a parameter.
use robot_ipc.Common.{
  ℕ, zero, suc, ◌≡◌, refl, arith, Bool, false, ◌||◌, Option, none, some, ◌==◌, if◌then◌else◌,
}

pub data Handler : Type 0 where
  -- SIG_IGN, SIG_DFL and a function of the program
  sig_ign sig_dfl : Handler
  custom : (function : ℕ) → Handler
  -- `__handler_wrap` itself
  wrap : Handler

-- What a delivered signal does in the end.
pub data Effect : Type 0 where
  returns exits : Effect
  calls : (function signum : ℕ) → Effect

pub record Signals : Type 0 where
  pub should_wait : ℕ
  pub next_handler : Handler
  -- the handler of SIGINT in the system's table
  pub installed : Handler

abbrev ends_process : ℕ → Bool
ends_process signum =
    signum == 1 || signum == 2 || signum == 9 || signum == 13 || signum == 14 || signum == 15

-- The branches on `_host_variable_next_handler`; `again` is what a call of `__handler_wrap` does.
abbrev pub call_next : (again : Option Effect) → Handler → (signum : ℕ) → Option Effect
call_next again sig_ign signum = some returns
call_next again sig_dfl signum = some (if ends_process signum then exits else returns)
call_next again (custom function) signum = some (calls function signum)
call_next again wrap signum = again

-- `none` where the calls nest deeper than `depth`.
unfoldable pub handler_wrap : (depth : ℕ) → Signals → (signum : ℕ) → Option Effect
handler_wrap zero s signum = none
handler_wrap (suc depth) s signum =
    let again = handler_wrap depth s signum in
    if s.should_wait == 0 then call_next again s.next_handler signum else some returns

unfoldable pub set_handler_wrap : (query_fails install_fails : Bool) → Signals → Signals
set_handler_wrap query_fails install_fails s = if query_fails then s else record s {
  next_handler = s.installed;
  installed = if install_fails then s.installed else wrap;
}

-- What SIGINT, which is 2, does by a handler of the program.
abbrev pub disposition : Handler → Option Effect
disposition sig_ign = some returns
disposition sig_dfl = some exits
disposition (custom function) = some (calls function 2)
disposition wrap = none

-- After a second link, outside of reads and writes, the wrapper calls itself without end: on SIGINT
-- no depth of calls is enough.
pub interrupt_twice :
    (s : Signals) (depth : ℕ)
    → s.should_wait ≡ 0
    → handler_wrap depth (set_handler_wrap false false (set_handler_wrap false false s)) 2 ≡ none
unfolding handler_wrap set_handler_wrap
interrupt_twice s zero idle = refl
interrupt_twice s (suc depth) idle = ground (arith, idle, interrupt_twice s depth idle)
