-- ===== src/HostVariable/Refine.antt =====
-- Every access that the code makes to the flags is a step of the lock, or leaves them alone.
use robot_ipc.Common.{
  ℕ, zero, suc, ◌-◌, ◌/◌, ◌*◌, ◌<◌, ◌≡◌, refl, sym, arith, List, [], ◌∷◌, Option, none, some, leb,
  ◌==◌, ==_iff, subst, inl, inr, Bool-cases,
}
use robot_ipc.Word.{nibble, u64_mod}
use robot_ipc.HostVariable.Flags
use robot_ipc.HostVariable.Flags.{
  shm_buffer_cnt, target_of, drop_claim, acquire_read, release_read, claim,
}
use robot_ipc.HostVariable.Flags.Target.{Stores}
use robot_ipc.HostVariable.Flags.Readers.{acquire_read-eq-some, release_read-Stores}
use robot_ipc.HostVariable.Flags.Writers.{
  Publishes, claim-eq-some, publish-Publishes, drop_claim-Stores,
}
use robot_ipc.HostVariable.Process.{
  Shm, Pc, read_cas, read_copy, release_cas, write_cas, write_stamp, write_copy, publish_load,
  publish_check, publish_cas, write_drop, Next, attempt_read, attempt_claim, advance,
}
use robot_ipc.HostVariable.Lock.{
  Hold, exclusive, LockStep, keep, acquire, release, take, publish, drop, IsLocked,
}
use robot_ipc.HostVariable.Lock.Exclusion.{shared-pos}
use robot_ipc.HostVariable.System.{hold_of}

-- `target4` is four times a buffer's number.
abbrev pub IsAligned : ℕ → Type 0
IsAligned target4 = target4 ≡ target4 / 4 * 4

abbrev pub Aligned : Pc → Type 0
Aligned (write_stamp target4 timestamp contents) = IsAligned target4
Aligned (write_copy target4 timestamp contents k rest) = IsAligned target4
Aligned (publish_load target4 timestamp contents) = IsAligned target4
Aligned (publish_check target4 timestamp contents flags) = IsAligned target4
Aligned (publish_cas target4 timestamp contents flags) = IsAligned target4
Aligned (write_drop target4) = IsAligned target4
Aligned pc = Unit

-- The step of the lock that is made on the way from `pc` to `next`.
abbrev Refines : Shm → Pc → Next → Type 0
Refines m pc next =
    LockStep m.flags (hold_of pc) next.mem.flags (hold_of next.process.pc) × Aligned next.process.pc

pub publish-aligned :
    {w : ℕ}
    → w < u64_mod
    → (target4 : ℕ) → IsAligned target4
    → target4 / 4 < shm_buffer_cnt
    → Publishes w (target4 / 4) (Flags.publish target4 w)
publish-aligned {w} fits target4 al low =
    subst (λ x. Publishes w (target4 / 4) (Flags.publish x w)) (sym al)
      (publish-Publishes w (target4 / 4) fits (omega arith))

pub drop-aligned :
    {w : ℕ}
    → w < u64_mod
    → (target4 : ℕ) → IsAligned target4
    → target4 / 4 < shm_buffer_cnt
    → Stores w (target4 / 4) 0 (drop_claim target4 w)
drop-aligned {w} fits target4 al low =
    subst (λ x. Stores w (target4 / 4) 0 (drop_claim x w)) (sym al)
      (drop_claim-Stores w (target4 / 4) fits (omega arith))

pub slot-lt :
    {n w b : ℕ} {holds : ℕ → Hold}
    → IsLocked n w holds
    → (i : ℕ) → i < n
    → holds i ≡ exclusive b
    → b < shm_buffer_cnt
slot-lt locked i hi e = rw e at (locked.ranges i hi)

module _ {n : ℕ} (m : Shm) {holds : ℕ → Hold} (locked : IsLocked n m.flags holds) where
  attempt_read-Refines :
      (wait op_size flags : ℕ) (o : Option (ℕ × ℕ))
      → acquire_read flags ≡ o
      → Refines m (read_cas op_size flags) (attempt_read m wait op_size flags o)
  attempt_read-Refines wait op_size flags none e = (keep, tt)
  attempt_read-Refines wait op_size flags (some (target, new_flags)) e =
      elim (Bool-cases (m.flags == flags)) [
        | inl same ↦
            let here : m.flags ≡ flags = (==_iff m.flags flags).0 same in
            let (is_target, room, s) =
              acquire_read-eq-some m.flags target new_flags locked.fits locked.open_target
                (rw here e) in
            rw same (acquire is_target room s, tt)
        | inr other ↦ rw other (keep, tt)
      ]

  attempt_claim-Refines :
      (wait timestamp : ℕ) (contents : List ℕ) (flags : ℕ) (o : Option (ℕ × ℕ))
      → claim flags ≡ o
      → Refines m
          (write_cas timestamp contents flags)
          (attempt_claim m wait timestamp contents flags o)
  attempt_claim-Refines wait timestamp contents flags none e = (keep, tt)
  attempt_claim-Refines wait timestamp contents flags (some (target4, new_flags)) e =
      elim (Bool-cases (m.flags == flags)) [
        | inl same ↦
            let here : m.flags ≡ flags = (==_iff m.flags flags).0 same in
            let (b, four, low, is_free, s) =
              claim-eq-some m.flags target4 new_flags locked.fits (omega (arith, locked.target))
                (rw here e) in
            let slot : target4 / 4 ≡ b = omega arith in
            rw same (rw slot (take low is_free s), omega arith)
        | inr other ↦ rw other (keep, tt)
      ]

  -- The next access of process `i` is a step of the lock.
  pub advance-Refines :
      (size wait i : ℕ) (pc : Pc)
      → i < n
      → holds i ≡ hold_of pc
      → Aligned pc
      → Refines m pc (advance size m wait pc)
  unfolding advance
  advance-Refines size wait i (read_cas op_size flags) hi e al =
      attempt_read-Refines wait op_size flags (acquire_read flags) refl
  advance-Refines size wait i (write_cas timestamp contents flags) hi e al =
      attempt_claim-Refines wait timestamp contents flags (claim flags) refl
  advance-Refines size wait i (read_copy target k zero buf) hi e al = (keep, tt)
  advance-Refines size wait i (read_copy target k (suc left) buf) hi e al = (keep, tt)
  advance-Refines size wait i (release_cas target buf flags) hi e al =
      elim (Bool-cases (m.flags == flags)) [
        | inl same ↦ rw same (
          release (
              subst (λ f. Stores m.flags target (nibble m.flags target - 1) (release_read target f))
                ((==_iff m.flags flags).0 same)
                (release_read-Stores m.flags target locked.fits (target-lt e)
                  (shared-pos locked target i hi e))),
          tt,
        )
        | inr other ↦ rw other (keep, tt)
      ]
    where
      target-lt : holds i ≡ hold_of (release_cas target buf flags) → target < 16
      target-lt e =
          let range : target < shm_buffer_cnt = rw e at (locked.ranges i hi) in omega arith
  advance-Refines size wait i (write_copy target4 timestamp contents k []) hi e al = (keep, al)
  advance-Refines size wait i (write_copy target4 timestamp contents k (x ∷ rest)) hi e al =
      (keep, al)
  advance-Refines size wait i (publish_check target4 timestamp contents flags) hi e al =
      elim (Bool-cases (leb timestamp (m.timestamp (target_of flags)))) [
        | inl late ↦ rw late (keep, al)
        | inr latest ↦ rw latest (keep, al)
      ]
  advance-Refines size wait i (publish_cas target4 timestamp contents flags) hi e al =
      elim (Bool-cases (m.flags == flags)) [
        | inl same ↦ rw same (
          publish (
              subst (λ f. Publishes m.flags (target4 / 4) (Flags.publish target4 f))
                ((==_iff m.flags flags).0 same)
                (publish-aligned locked.fits target4 al (slot-lt locked i hi e))),
          tt,
        )
        | inr other ↦ rw other (keep, al)
      ]
  advance-Refines size wait i (write_drop target4) hi e al =
      (drop (drop-aligned locked.fits target4 al (slot-lt locked i hi e)), tt)
  advance-Refines size wait i (write_stamp target4 timestamp contents) hi e al = (keep, al)
  advance-Refines size wait i (publish_load target4 timestamp contents) hi e al = (keep, al)
  advance-Refines size wait i pc hi e al = (keep, tt)
