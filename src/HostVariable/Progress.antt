-- ===== src/HostVariable/Progress.antt =====
-- With few processes nobody is refused: neither the count of a buffer nor the number of buffers runs
-- out.
use robot_ipc.Common.{
  ℕ, zero, suc, ◌<◌, ◌≤◌, ◌≡◌, ◌≢◌, inl, inr, refl, sym, arith, List, [], ◌∷◌, none, ℤ, pos, negsuc,
  ◌==◌, leb, update, ℕ_discrete, subst, update_self, update_ne, Bool-cases, Option-cases,
}
use robot_ipc.HostVariable.Flags.{acquire_read, claim}
use robot_ipc.HostVariable.Lock.{Hold, free, IsLocked}
use robot_ipc.HostVariable.Flags.{target_of}
use robot_ipc.HostVariable.Process.{
  Shm, Pc, idle, read_load, read_cas, read_copy, release_load, release_cas, write_load, write_cas,
  write_stamp, write_copy, publish_load, publish_check, publish_cas, write_drop, returned, advance,
  Process, begin_read, begin_write,
}
use robot_ipc.HostVariable.System.{System, holds, hold_of, Reach, start, later, move, read, write}
use robot_ipc.HostVariable.Lock.Capacity.{acquire_read-ne-none, claim-ne-none}
use robot_ipc.HostVariable.Contents.Reachable.{Reach-Inv}

-- What the local variables of a process say about its chances: the flags that it has loaded, and
-- the code that it has returned.
abbrev Unrefused : (Claimable : ℕ → Type 0) (Answer : ℤ → Type 0) → Pc → Type 0
Unrefused Claimable Answer (read_cas op_size flags) = acquire_read flags ≢ none
Unrefused Claimable Answer (write_cas timestamp contents flags) = Claimable flags
Unrefused Claimable Answer (returned code buf) = Answer code
Unrefused Claimable Answer pc = Unit

module _ (Claimable : ℕ → Type 0) (Answer : ℤ → Type 0) (success : Answer (pos 0))
    (late : Answer (pos 1))
    (refused : (flags : ℕ) → Claimable flags → claim flags ≡ none → Answer (negsuc 0)) where
  advance-Unrefused :
      (size : ℕ) (m : Shm) (wait : ℕ) (pc : Pc)
      → (hold_of pc ≡ free → (acquire_read m.flags ≢ none) × Claimable m.flags)
      → Unrefused Claimable Answer pc
      → Unrefused Claimable Answer (advance size m wait pc).process.pc
  unfolding advance
  advance-Unrefused size m wait idle now u = tt
  advance-Unrefused size m wait (read_load op_size) now u = (now refl).0
  advance-Unrefused size m wait (read_cas op_size flags) now u =
      elim (Option-cases (acquire_read flags)) [
        | inl full ↦ absurd (u full)
        | inr ((target, new_flags), found) ↦ elim (Bool-cases (m.flags == flags)) [
          | inl same ↦ rw (found, same) tt
          | inr other ↦ rw (found, other) (now refl).0
        ]
      ]
  advance-Unrefused size m wait (read_copy target k zero buf) now u = tt
  advance-Unrefused size m wait (read_copy target k (suc left) buf) now u = tt
  advance-Unrefused size m wait (release_load target buf) now u = tt
  advance-Unrefused size m wait (release_cas target buf flags) now u =
      elim (Bool-cases (m.flags == flags)) [ inl same ↦ rw same success | inr other ↦ rw other tt ]
  advance-Unrefused size m wait (write_load timestamp contents) now u = (now refl).1
  advance-Unrefused size m wait (write_cas timestamp contents flags) now u =
      elim (Option-cases (claim flags)) [
        | inl full ↦ rw full (refused flags u full)
        | inr ((target4, new_flags), found) ↦ elim (Bool-cases (m.flags == flags)) [
          | inl same ↦ rw (found, same) tt
          | inr other ↦ rw (found, other) (now refl).1
        ]
      ]
  advance-Unrefused size m wait (write_stamp target4 timestamp contents) now u = tt
  advance-Unrefused size m wait (write_copy target4 timestamp contents k []) now u = tt
  advance-Unrefused size m wait (write_copy target4 timestamp contents k (x ∷ rest)) now u = tt
  advance-Unrefused size m wait (publish_load target4 timestamp contents) now u = tt
  advance-Unrefused size m wait (publish_check target4 timestamp contents flags) now u =
      elim (Bool-cases (leb timestamp (m.timestamp (target_of flags)))) [
        | inl old ↦ rw old tt
        | inr new ↦ rw new tt
      ]
  advance-Unrefused size m wait (publish_cas target4 timestamp contents flags) now u =
      elim (Bool-cases (m.flags == flags)) [ inl same ↦ rw same success | inr other ↦ rw other tt ]
  advance-Unrefused size m wait (write_drop target4) now u = late
  advance-Unrefused size m wait (returned code buf) now u = u

  update-Unrefused :
      (f : ℕ → Process) (j i : ℕ) (p : Process)
      → Unrefused Claimable Answer (f i).pc
      → Unrefused Claimable Answer p.pc
      → Unrefused Claimable Answer (update f j p i).pc
  update-Unrefused f j i p old new = elim (ℕ_discrete j i) [
    | yes same ↦ subst (λ q. Unrefused Claimable Answer q.pc) (sym (update_self f j p i same)) new
    | no other ↦ subst (λ q. Unrefused Claimable Answer q.pc) (sym (update_ne f j p i other)) old
  ]

  Reach-Unrefused :
      {n size : ℕ} {bytes : ℕ → ℕ} {s : System}
      → ((w : ℕ) (holds : ℕ → Hold)
          → IsLocked n w holds
          → (i : ℕ) → i < n
          → holds i ≡ free
          → (acquire_read w ≢ none) × Claimable w)
      → Reach n size bytes s
      → (i : ℕ) → i < n
      → Unrefused Claimable Answer (s.process i).pc
  Reach-Unrefused now start i hi = tt
  Reach-Unrefused {size} now (later {s} r (move j hj)) i hi =
      let old = s.process j in
      let next = advance size s.mem old.should_wait old.pc in
      update-Unrefused s.process j i next.process (Reach-Unrefused now r i hi) (
        advance-Unrefused size s.mem old.should_wait old.pc
          (now s.mem.flags (holds s.process) (Reach-Inv r).locked j hj)
          (Reach-Unrefused now r j hj))
  Reach-Unrefused now (later {s} r (read j op_size hj h fits)) i hi =
      update-Unrefused s.process j i (begin_read op_size) (Reach-Unrefused now r i hi) tt
  Reach-Unrefused now (later {s} r (write j timestamp contents hj h fits)) i hi =
      update-Unrefused s.process j i (begin_write timestamp contents) (Reach-Unrefused now r i hi)
        tt

-- At most fourteen processes share a variable: then no read finds the count of the target full,
-- whatever the flags that it loaded and however old they are.
pub read_never_full :
    {n size : ℕ} {bytes : ℕ → ℕ} {s : System}
    → Reach n size bytes s
    → n ≤ 14
    → (i op_size flags : ℕ) → i < n
    → (s.process i).pc ≡ read_cas op_size flags
    → acquire_read flags ≢ none
read_never_full r few i op_size flags hi e = rw e at (
    Reach-Unrefused (λ w. Unit) (λ code. Unit) tt tt (λ w u f. tt)
      (λ w hs locked j hj rests. (acquire_read-ne-none locked j hj rests few, tt)) r i hi)

-- At most three processes share a variable: then no read and no write ever returns -1.
pub never_refused :
    {n size : ℕ} {bytes : ℕ → ℕ} {s : System}
    → Reach n size bytes s
    → n ≤ 3
    → (i : ℕ) (code : ℤ) (buf : List ℕ) → i < n
    → (s.process i).pc ≡ returned code buf
    → code ≢ negsuc 0
never_refused r few i code buf hi e = rw e at (
    Reach-Unrefused (λ w. claim w ≢ none) (λ c. c ≢ negsuc 0) (λ e. cc) (λ e. cc)
      (λ w u f. absurd (u f))
      (λ w hs locked j hj rests.
        (acquire_read-ne-none locked j hj rests (omega arith), claim-ne-none locked j hj rests few))
      r i hi)
