-- ===== src/Examples/Latency.antt =====
-- How the examples measure time: `diff` of examples/host_function_latency_test/receiver.c, and the
-- delay in nanoseconds of examples/host_variable_latency_test/reader.c.
use robot_ipc.Common.{
  ℕ, ◌+◌, ◌*◌, ◌-◌, ◌<◌, ◌≡◌, arith, ℤ, pos, pos_part, neg_part, sub_ℕ, is_negative, if◌then◌else◌,
  leb,
}
use robot_ipc.HostVariable.Timestamp.{Timespec}

abbrev pub second : ℕ
second = 1000000000

-- A `struct timespec` that may be negative.
pub record Span : Type 0 where
  pub tv_sec : ℤ
  pub tv_nsec : ℤ

unfoldable pub diff : (start end : Timespec) → Span
diff start end =
    if is_negative (sub_ℕ end.tv_nsec start.tv_nsec)
    then record {
      tv_sec = sub_ℕ end.tv_sec (start.tv_sec + 1);
      tv_nsec = sub_ℕ (second + end.tv_nsec) start.tv_nsec;
    }
    else record {
      tv_sec = sub_ℕ end.tv_sec start.tv_sec;
      tv_nsec = sub_ℕ end.tv_nsec start.tv_nsec;
    }

-- `diff` of the reader, with a second added where it is negative.
unfoldable pub delay : (sent now : Timespec) → ℤ
delay sent now =
    if is_negative (sub_ℕ now.tv_nsec sent.tv_nsec)
    then sub_ℕ (second + now.tv_nsec) sent.tv_nsec
    else sub_ℕ now.tv_nsec sent.tv_nsec

-- Between two times, in either order, the difference has its nanoseconds below a second, and its
-- seconds and nanoseconds together are the nanoseconds from the one to the other; the reader's delay
-- is these nanoseconds without the seconds.
pub diff_lem :
    (start end : Timespec)
    → start.tv_nsec < second
    → end.tv_nsec < second
    → let d = diff start end in
      (n : ℕ) × (d.tv_nsec ≡ pos n)
      × (n < second)
      × (pos_part d.tv_sec * second + n + (start.tv_sec * second + start.tv_nsec)
          ≡ neg_part d.tv_sec * second + (end.tv_sec * second + end.tv_nsec))
      × (delay start end ≡ d.tv_nsec)
unfolding diff delay
diff_lem start end hs he = (
  if leb start.tv_nsec end.tv_nsec
      then end.tv_nsec - start.tv_nsec
      else second + end.tv_nsec - start.tv_nsec,
  ground arith,
  ground arith,
  ground arith,
  ground arith,
)
