-- ===== src/HostVariable/Contents/Preserve.antt =====
-- Every step of the system keeps the invariant.
use robot_ipc.Common.{
  ℕ, ◌+◌, ◌*◌, ◌<◌, ◌≡◌, ◌≢◌, ◌⊎◌, inl, inr, ◌∙◌, refl, sym, ap, subst, fun_ext, length, update,
  update_self, update_ne, ℕ_discrete,
}
use robot_ipc.Word.{nibble}
use robot_ipc.HostVariable.Process.{Process, begin_read, begin_write, advance, Next}
use robot_ipc.HostVariable.Lock.{free, shared, exclusive, LockStep, IsLocked}
use robot_ipc.HostVariable.Lock.Exclusion.{exclusive_alone, exclusive-ne-target}
use robot_ipc.HostVariable.Lock.Preserve.{LockStep-IsLocked}
use robot_ipc.HostVariable.System.{System, hold_of, holds, run_step, call, Step, move, read, write}
use robot_ipc.HostVariable.Refine.{Aligned, advance-Refines, slot-lt}
use robot_ipc.HostVariable.Contents.{Local, IsLive, Holds, Inv}
use robot_ipc.HostVariable.Contents.Frame.{advance-bytes, note_publish-other, Agrees-frame}
use robot_ipc.HostVariable.Contents.Mover.{advance-Local, Local-frame}
use robot_ipc.HostVariable.Contents.Observe.{
  holds-update, Local-Aligned, LockStep-live, advance-IsPublication, publication-Holds,
  note_acquire-seen,
}

module _ {n size : ℕ} {s : System} (inv : Inv n size s) (i : ℕ) (hi : i < n) where
  open inv use {locked, locals, live, seen}

  abbrev old : Process
  old = s.process i

  abbrev next : Next
  next = advance size s.mem old.should_wait old.pc

  abbrev after : System
  after = run_step size i s

  refines :
      LockStep s.mem.flags (hold_of old.pc) next.mem.flags (hold_of next.process.pc)
      × Aligned next.process.pc
  refines =
      advance-Refines s.mem locked size old.should_wait i old.pc hi refl
        (Local-Aligned size s.mem old.pc (locals i hi))

  after-IsLocked : IsLocked n after.mem.flags (holds after.process)
  after-IsLocked =
      rw (holds-update s.process i next.process) (LockStep-IsLocked locked i hi refines.0)

  bytes_stay :
      (b j : ℕ)
      → hold_of old.pc ≢ exclusive b
      → j < size
      → next.mem.bytes (b * size + j) ≡ s.mem.bytes (b * size + j)
  bytes_stay b j ne hj = advance-bytes size s.mem old.should_wait old.pc (locals i hi) b j ne hj

  -- Nobody else holds what process `i` writes to.
  other_holds :
      (j b : ℕ)
      → j < n
      → i ≢ j
      → (holds s.process j ≡ exclusive b) ⊎ (holds s.process j ≡ shared b)
      → hold_of old.pc ≢ exclusive b
  other_holds j b hj ne h e = ne (exclusive_alone locked b i j hi hj e h)

  locals_after : (j : ℕ) → j < n → Local size after.mem (after.process j).pc
  locals_after j hj = elim (ℕ_discrete i j) [
    | yes same ↦
        rw (update_self s.process i next.process j same)
          (advance-Local size s.mem old.should_wait old.pc (locals i hi) refines.1)
    | no ne ↦ rw (update_ne s.process i next.process j ne) (
        Local-frame size s.mem next.mem (s.process j).pc
          (λ b h k hk. bytes_stay b k (other_holds j b hj ne h) hk) (locals j hj))
  ]

  -- What was live and is not written to still holds its version.
  stays :
      (b : ℕ)
      → hold_of old.pc ≢ exclusive b
      → Holds size s.mem (s.version b) b
      → Holds size next.mem (after.version b) b
  stays b ne h = rw (note_publish-other s.mem old.pc s.version b ne) (
    h.0,
    Agrees-frame size s.mem next.mem b (length (s.version b)) (s.version b) h.0
        (λ j hj. bytes_stay b j ne hj) h.1,
  )

  -- A buffer that was live is not written to.
  live-ne-exclusive :
      (b : ℕ) → IsLive n s.mem.flags (holds s.process) b → hold_of old.pc ≢ exclusive b
  live-ne-exclusive b (inl target) e = exclusive-ne-target locked b i hi e target
  live-ne-exclusive b (inr (j, hj, h)) e =
      let same : i ≡ j = exclusive_alone locked b i j hi hj e (inr h) in
      cc (ap (holds s.process) same)

  live_stays :
      (b : ℕ) → IsLive n s.mem.flags (holds s.process) b → Holds size next.mem (after.version b) b
  live_stays b l = stays b (live-ne-exclusive b l) (live b l)

  -- The step itself decides for the target and for its own process.
  moved_live :
      (b : ℕ)
      → (nibble next.mem.flags 15 ≡ b) ⊎ (hold_of next.process.pc ≡ shared b)
      → Holds size next.mem (after.version b) b
  moved_live b l = elim (LockStep-live locked i hi refines.0 refl b l) [
    | inl (e, target) ↦
        publication-Holds size s.mem old.should_wait old.pc s.version b (locals i hi) (
          advance-IsPublication size s.mem old.should_wait old.pc locked.fits b
            (Local-Aligned size s.mem old.pc (locals i hi)) e (slot-lt locked i hi e) target
            (exclusive-ne-target locked b i hi e))
    | inr (inl target) ↦ live_stays b (inl target)
    | inr (inr e) ↦ live_stays b (inr (i, hi, e))
  ]

  live_after :
      (b : ℕ)
      → IsLive n after.mem.flags (holds after.process) b
      → Holds size after.mem (after.version b) b
  live_after b (inl target) = moved_live b (inl target)
  live_after b (inr (j, hj, h)) = elim (ℕ_discrete i j) [
    | yes same ↦ moved_live b (inr (rw (update_self s.process i next.process j same) at h))
    | no ne ↦ live_stays b (inr (j, hj, rw (update_ne s.process i next.process j ne) at h))
  ]

  seen_after :
      (j b : ℕ) → j < n → holds after.process j ≡ shared b → after.snapshot j ≡ after.version b
  seen_after j b hj h = elim (ℕ_discrete i j) [
    | yes same ↦ rw (update_self s.snapshot i _ j same) (
        note_acquire-seen size s.mem old.should_wait old.pc s.version (s.snapshot i) b
          (λ e. seen i b hi e) (rw (update_self s.process i next.process j same) at h))
    | no ne ↦
        let held : holds s.process j ≡ shared b =
          rw (update_ne s.process i next.process j ne) at h in
        rw
          (
            update_ne s.snapshot i _ j ne,
            note_publish-other s.mem old.pc s.version b (other_holds j b hj ne (inr held)),
          )
          (seen j b hj held)
  ]

  move-Inv : Inv n size after
  move-Inv = record {
    locked = after-IsLocked;
    locals = locals_after;
    live = live_after;
    seen = seen_after;
  }

-- A process that holds nothing begins a call.
call-Inv :
    {n size : ℕ} {s : System}
    → Inv n size s
    → (i : ℕ) → i < n
    → (p : Process) → hold_of (s.process i).pc ≡ free
    → hold_of p.pc ≡ free
    → Local size s.mem p.pc
    → Inv n size (call i p s)
call-Inv {n} {size} {s} inv i hi p was_free is_free l = record {
  locked = rw same_holds inv.locked;
  locals = λ j hj. elim (ℕ_discrete i j) [
    | yes same ↦ rw (update_self s.process i p j same) l
    | no ne ↦ rw (update_ne s.process i p j ne) (inv.locals j hj)
  ];
  live = λ b h. inv.live b (subst (λ hs. IsLive n s.mem.flags hs b) same_holds h);
  seen = λ j b hj h. inv.seen j b hj (subst (λ hs. hs j ≡ shared b) same_holds h);
}
  where
    same_holds : holds (update s.process i p) ≡ holds s.process
    same_holds = fun_ext λ j. elim (ℕ_discrete i j) [
      | yes same ↦
          rw (update_self s.process i p j same) (is_free ∙ sym was_free ∙ ap (holds s.process) same)
      | no ne ↦ rw (update_ne s.process i p j ne)
    ]

-- Every step of the system keeps the invariant.
pub Step-Inv : {n size : ℕ} {s t : System} → Inv n size s → Step n size s t → Inv n size t
Step-Inv inv (move i hi) = move-Inv inv i hi
Step-Inv inv (read i op_size hi no_hold fits) =
    call-Inv inv i hi (begin_read op_size) no_hold refl fits
Step-Inv inv (write i timestamp contents hi no_hold fits) =
    call-Inv inv i hi (begin_write timestamp contents) no_hold refl fits
