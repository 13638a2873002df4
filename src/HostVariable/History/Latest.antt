-- ===== src/HostVariable/History/Latest.antt =====
-- The target is the buffer of the last publication.
use robot_ipc.Common.{
  ℕ, ◌/◌, ◌<◌, ◌≡◌, ◌≢◌, ◌⊎◌, inl, inr, ◌∙◌, refl, sym, arith, List, ap, ◌==◌, ==_iff, update_self,
  Bool-cases,
}
use robot_ipc.Word.{nibble, u64_mod}
use robot_ipc.HostVariable.Flags
use robot_ipc.HostVariable.Flags.{shm_buffer_cnt, target_of, acquire_read, claim}
use robot_ipc.HostVariable.Process.{Shm, Pc, publish_cas, advance}
use robot_ipc.HostVariable.Lock.{
  Hold, exclusive, LockStep, keep, acquire, release, take, publish, drop, IsLocked,
}
use robot_ipc.HostVariable.Lock.Exclusion.{exclusive-ne-target}
use robot_ipc.HostVariable.System.{
  System, hold_of, note_publish, run_step, move, read, write, Reach, start, later,
}
use robot_ipc.HostVariable.Refine.{Aligned, advance-Refines, publish-aligned, slot-lt}
use robot_ipc.HostVariable.Contents.{Inv}
use robot_ipc.HostVariable.Contents.Frame.{note_publish-other}
use robot_ipc.HostVariable.Contents.Observe.{Local-Aligned, IsPublication, advance-IsPublication}
use robot_ipc.HostVariable.Contents.Reachable.{Reach-Inv}
use robot_ipc.HostVariable.History.{note_log, log, latest}

-- The top field changes only where a publication is made.
LockStep-target :
    {n w : ℕ} {hs : ℕ → Hold}
    → IsLocked n w hs
    → (i : ℕ) → i < n
    → {w' : ℕ} {h h' : Hold} → LockStep w h w' h'
    → h ≡ hs i
    → ((b : ℕ) × (h ≡ exclusive b) × (nibble w' 15 ≡ b)) ⊎ (nibble w' 15 ≡ nibble w 15)
LockStep-target locked i hi keep e = inr refl
LockStep-target locked i hi (acquire t room s) e =
    inr (ground (arith, locked.target, s.others 15 (omega arith)))
LockStep-target locked i hi (release s) e =
    inr (ground (arith, locked.ranges i hi, s.others 15 (omega arith)))
LockStep-target locked i hi (take low is_free s) e = inr (ground (arith, s.others 15 (omega arith)))
LockStep-target locked i hi (publish {b} p) e = inl (b, refl, p.target)
LockStep-target locked i hi (drop s) e =
    inr (ground (arith, locked.ranges i hi, s.others 15 (omega arith)))

publication-latest :
    (m : Shm) (pc : Pc) (version : ℕ → List ℕ) (l : List (List ℕ)) (b : ℕ)
    → IsPublication m pc b
    → note_publish m pc version b ≡ latest (note_log m pc l)
publication-latest m pc version l b p =
    rw (p.here, (==_iff m.flags p.flags).1 p.same)
      (update_self version (p.target4 / 4) p.contents b p.slot)

-- Where the target stays, nothing is published.
note_log-stays :
    (size : ℕ) (m : Shm) (wait : ℕ) (pc : Pc) (l : List (List ℕ))
    → m.flags < u64_mod
    → Aligned pc
    → ((b : ℕ) → hold_of pc ≡ exclusive b → (b < shm_buffer_cnt) × (nibble m.flags 15 ≢ b))
    → nibble (advance size m wait pc).mem.flags 15 ≡ nibble m.flags 15
    → note_log m pc l ≡ l
unfolding advance
note_log-stays size m wait (publish_cas target4 timestamp contents flags) l fits al apart t =
    elim (Bool-cases (m.flags == flags)) [
      | inl same ↦
          let p = publish-aligned fits target4 al (apart (target4 / 4) refl).0 in
          let e : nibble (Flags.publish target4 flags) 15 ≡ nibble m.flags 15 = rw same at t in
          absurd (
            (apart (target4 / 4) refl).1 (
              sym e
              ∙ ap (λ f. nibble (Flags.publish target4 f) 15) (sym ((==_iff m.flags flags).0 same))
              ∙ p.target))
      | inr other ↦ rw other
    ]
note_log-stays size m wait pc l fits al apart t = refl

module _ {n size : ℕ} {s : System} (inv : Inv n size s) (i : ℕ) (hi : i < n) (l : List (List ℕ))
    (before : s.version (nibble s.mem.flags 15) ≡ latest l) where
  open inv use {locked, locals}

  abbrev pc : Pc
  pc = (s.process i).pc

  apart : (b : ℕ) → hold_of pc ≡ exclusive b → (b < shm_buffer_cnt) × (nibble s.mem.flags 15 ≢ b)
  apart b e = (slot-lt locked i hi e, exclusive-ne-target locked b i hi e)

  aligned : Aligned pc
  aligned = Local-Aligned size s.mem pc (locals i hi)

  move-latest :
      (run_step size i s).version (nibble (run_step size i s).mem.flags 15)
      ≡ latest (note_log s.mem pc l)
  move-latest =
      let wait = (s.process i).should_wait in
      elim (LockStep-target locked i hi
        (advance-Refines s.mem locked size wait i pc hi refl aligned).0 refl) [
          | inl (b, e, t) ↦ rw t (
              publication-latest s.mem pc s.version l b (
                advance-IsPublication size s.mem wait pc locked.fits b aligned e (apart b e).0 t
                  (apart b e).1))
          | inr t ↦
              rw
                (
                  t,
                  note_publish-other s.mem pc s.version (nibble s.mem.flags 15)
                      (λ e. (apart (nibble s.mem.flags 15) e).1 refl),
                  note_log-stays size s.mem wait pc l locked.fits aligned apart t,
                )
                before
        ]

-- In every reachable state the version in the target is the value that was published last.
pub target-latest :
    {n size : ℕ} {bytes : ℕ → ℕ} {s : System}
    → (r : Reach n size bytes s) → s.version (nibble s.mem.flags 15) ≡ latest (log r)
target-latest start = refl
target-latest (later r (move i hi)) = move-latest (Reach-Inv r) i hi (log r) (target-latest r)
target-latest (later r (read i op_size hi h fits)) = target-latest r
target-latest (later r (write i timestamp contents hi h fits)) = target-latest r
