-- ===== src/HostVariable/Contents/Observe.antt =====
-- What a single access does to the holds, to the buffers that can be read and to the records of the
-- past.
use robot_ipc.Common.{
  ℕ, zero, suc, ◌/◌, ◌<◌, ◌≡◌, ◌≢◌, ◌⊎◌, inl, inr, ◌∙◌, refl, sym, arith, List, [], ◌∷◌, ap, subst,
  fun_ext, Option, none, some, ◌==◌, ==_iff, length, update, update_self, ℕ_discrete, Bool-cases,
  if◌then◌else◌,
}
use robot_ipc.Word.{nibble, u64_mod}
use robot_ipc.HostVariable.Flags.{shm_buffer_cnt, acquire_read, claim}
use robot_ipc.HostVariable.Process.{
  Shm, Pc, read_cas, read_copy, release_load, release_cas, write_cas, write_stamp, write_copy,
  publish_load, publish_check, publish_cas, write_drop, Process, advance, attempt_read,
  attempt_claim,
}
use robot_ipc.HostVariable.Lock.{
  Hold, free, shared, exclusive, LockStep, keep, acquire, release, take, publish, drop, IsLocked,
}
use robot_ipc.HostVariable.System.{hold_of, holds, note_publish, note_acquire, acquired}
use robot_ipc.HostVariable.Refine.{Aligned, drop-aligned}
use robot_ipc.HostVariable.Contents.{Agrees, Local, Holds}

-- The holds after process `i` has moved on.
pub holds-update :
    (ps : ℕ → Process) (i : ℕ) (p : Process)
    → holds (update ps i p) ≡ update (holds ps) i (hold_of p.pc)
holds-update ps i p =
    fun_ext λ j. elim (ℕ_discrete i j) [ yes e ↦ ground arith | no ne ↦ ground arith ]

pub Local-Aligned : (size : ℕ) (m : Shm) (pc : Pc) → Local size m pc → Aligned pc
Local-Aligned size m (write_stamp target4 timestamp contents) l = l.0
Local-Aligned size m (write_copy target4 timestamp contents k rest) l = l.0
Local-Aligned size m (publish_load target4 timestamp contents) l = l.0
Local-Aligned size m (publish_check target4 timestamp contents flags) l = l.0
Local-Aligned size m (publish_cas target4 timestamp contents flags) l = l.0
Local-Aligned size m (write_drop target4) l = l
Local-Aligned size m pc l = tt

-- Either the step publishes buffer `b`, or what is live after it was live before it.
pub LockStep-live :
    {n w : ℕ} {hs : ℕ → Hold}
    → IsLocked n w hs
    → (i : ℕ) → i < n
    → {w' : ℕ} {h h' : Hold} → LockStep w h w' h'
    → h ≡ hs i
    → (b : ℕ) → (nibble w' 15 ≡ b) ⊎ (h' ≡ shared b)
    → ((h ≡ exclusive b) × (nibble w' 15 ≡ b)) ⊎ ((nibble w 15 ≡ b) ⊎ (h ≡ shared b))
LockStep-live locked i hi keep e b l = inr l
LockStep-live locked i hi (acquire t room s) e b l =
    ground (arith, locked.target, s.others 15 (omega arith))
LockStep-live locked i hi (release s) e b l =
    ground (arith, locked.ranges i hi, s.others 15 (omega arith))
LockStep-live locked i hi (take low is_free s) e b l = ground (arith, s.others 15 (omega arith))
LockStep-live locked i hi (publish p) e b l = ground (arith, p.target)
LockStep-live locked i hi (drop s) e b l =
    ground (arith, locked.ranges i hi, s.others 15 (omega arith))

-- An access that makes a buffer of its own the target is the compare-exchange of a publication.
pub record IsPublication (m : Shm) (pc : Pc) (b : ℕ) : Type 0 where
  pub target4 : ℕ
  pub timestamp : ℕ
  pub contents : List ℕ
  pub flags : ℕ
  pub here : pc ≡ publish_cas target4 timestamp contents flags
  pub same : m.flags ≡ flags
  pub slot : target4 / 4 ≡ b

pub advance-IsPublication :
    (size : ℕ) (m : Shm) (wait : ℕ) (pc : Pc)
    → m.flags < u64_mod
    → (b : ℕ) → Aligned pc
    → hold_of pc ≡ exclusive b
    → b < shm_buffer_cnt
    → nibble (advance size m wait pc).mem.flags 15 ≡ b
    → nibble m.flags 15 ≢ b
    → IsPublication m pc b
unfolding advance
advance-IsPublication size m wait (write_copy target4 timestamp contents k []) fits b al e lt t ne =
    absurd (ne t)
advance-IsPublication size m wait (write_copy target4 timestamp contents k (x ∷ rest)) fits b al e
      lt t ne =
    absurd (ne t)
advance-IsPublication size m wait (write_stamp target4 timestamp contents) fits b al e lt t ne =
    absurd (ne t)
advance-IsPublication size m wait (publish_load target4 timestamp contents) fits b al e lt t ne =
    absurd (ne t)
advance-IsPublication size m wait (publish_check target4 timestamp contents flags) fits b al e lt t
      ne =
    absurd (ground arith)
advance-IsPublication size m wait (publish_cas target4 timestamp contents flags) fits b al e lt t
      ne =
    elim (Bool-cases (m.flags == flags)) [
      | inl same ↦ record {
        target4 = target4;
        timestamp = timestamp;
        contents = contents;
        flags = flags;
        here = refl;
        same = (==_iff m.flags flags).0 same;
        slot = ground arith;
      }
      | inr other ↦ absurd (ne (rw other at t))
    ]
advance-IsPublication size m wait (write_drop target4) fits b al e lt t ne =
    let slot : target4 / 4 ≡ b = ground arith in
    let stored = drop-aligned fits target4 al (rw slot lt) in
    absurd (ne (sym (stored.others 15 (omega arith) (omega arith)) ∙ t))
advance-IsPublication size m wait (read_copy target k left buf) fits b al e lt t ne = cc
advance-IsPublication size m wait pc fits b al e lt t ne = cc

publish_cas-Holds :
    (size : ℕ) (m : Shm) (wait target4 timestamp : ℕ) (contents : List ℕ) (flags : ℕ)
    (version : ℕ → List ℕ) (b : ℕ)
    → m.flags ≡ flags
    → target4 / 4 ≡ b
    → Local size m (publish_cas target4 timestamp contents flags)
    → Holds size
        (advance size m wait (publish_cas target4 timestamp contents flags)).mem
        (note_publish m (publish_cas target4 timestamp contents flags) version b)
        b
unfolding advance
publish_cas-Holds size m wait target4 timestamp contents flags version b same slot l =
    rw ((==_iff m.flags flags).1 same, update_self version (target4 / 4) contents b slot)
      (l.1, subst (λ c. Agrees size m c (length contents) contents) slot l.2)

-- A publication puts the bytes that were written into the target.
pub publication-Holds :
    (size : ℕ) (m : Shm) (wait : ℕ) (pc : Pc) (version : ℕ → List ℕ) (b : ℕ)
    → Local size m pc
    → IsPublication m pc b
    → Holds size (advance size m wait pc).mem (note_publish m pc version b) b
publication-Holds size m wait pc version b l p =
    subst
      (λ q. Local size m q → Holds size (advance size m wait q).mem (note_publish m q version b) b)
      (sym p.here)
      (publish_cas-Holds size m wait p.target4 p.timestamp p.contents p.flags version b p.same
        p.slot)
      l

attempt_claim-not_shared :
    (m : Shm) (wait timestamp : ℕ) (contents : List ℕ) (flags : ℕ) (o : Option (ℕ × ℕ)) (b : ℕ)
    → ¬ (hold_of (attempt_claim m wait timestamp contents flags o).process.pc ≡ shared b)
attempt_claim-not_shared m wait timestamp contents flags none b h = cc
attempt_claim-not_shared m wait timestamp contents flags (some (target4, w)) b h = ground arith

attempt_read-seen :
    (m : Shm) (wait op_size flags : ℕ) (o : Option (ℕ × ℕ)) (version : ℕ → List ℕ) (old : List ℕ)
    (b : ℕ)
    → hold_of (attempt_read m wait op_size flags o).process.pc ≡ shared b
    → (if m.flags == flags then acquired o version old else old) ≡ version b
attempt_read-seen m wait op_size flags none version old b h = cc
attempt_read-seen m wait op_size flags (some (target, w)) version old b h =
    elim (Bool-cases (m.flags == flags)) [
      | inl same ↦
          let held : shared target ≡ shared b = rw same at h in
          let here : target ≡ b = ground arith in rw same (ap version here)
      | inr other ↦ let held : free ≡ shared b = rw other at h in cc
    ]

-- A reader has seen the version of the buffer that it reads.
pub note_acquire-seen :
    (size : ℕ) (m : Shm) (wait : ℕ) (pc : Pc) (version : ℕ → List ℕ) (old : List ℕ) (b : ℕ)
    → (hold_of pc ≡ shared b → old ≡ version b)
    → hold_of (advance size m wait pc).process.pc ≡ shared b
    → note_acquire m pc version old ≡ note_publish m pc version b
unfolding advance
note_acquire-seen size m wait (read_cas op_size flags) version old b seen h =
    attempt_read-seen m wait op_size flags (acquire_read flags) version old b h
note_acquire-seen size m wait (read_copy target k zero buf) version old b seen h = seen h
note_acquire-seen size m wait (read_copy target k (suc left) buf) version old b seen h = seen h
note_acquire-seen size m wait (release_load target buf) version old b seen h = seen h
note_acquire-seen size m wait (release_cas target buf flags) version old b seen h =
    elim (Bool-cases (m.flags == flags)) [
      | inl same ↦ let held : free ≡ shared b = rw same at h in cc
      | inr other ↦ seen (rw other at h)
    ]
note_acquire-seen size m wait (write_cas timestamp contents flags) version old b seen h =
    absurd (attempt_claim-not_shared m wait timestamp contents flags (claim flags) b h)
note_acquire-seen size m wait (write_copy target4 timestamp contents k []) version old b seen h = cc
note_acquire-seen size m wait (write_copy target4 timestamp contents k (x ∷ rest)) version old b
      seen h =
    cc
note_acquire-seen size m wait (publish_check target4 timestamp contents flags) version old b seen
      h =
    ground arith
note_acquire-seen size m wait (publish_cas target4 timestamp contents flags) version old b seen h =
    ground arith
note_acquire-seen size m wait pc version old b seen h = cc
