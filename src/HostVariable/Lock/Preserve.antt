-- ===== src/HostVariable/Lock/Preserve.antt =====
-- A step of one process keeps the invariant of the lock.
use robot_ipc.Common.{
  ℕ, ◌+◌, ◌<◌, ◌≤◌, ◌≡◌, ◌≢◌, refl, sym, ◌∙◌, arith, total-update, update, ℕ_discrete, dec_lt,
}
use robot_ipc.Word.{nibble, u64_mod, nibble-lt}
use robot_ipc.HostVariable.Flags.{shm_buffer_cnt}
use robot_ipc.HostVariable.Flags.Target.{Stores}
use robot_ipc.HostVariable.Flags.Writers.{Publishes}
use robot_ipc.HostVariable.Lock.{
  Hold, free, exclusive, weight, LockStep, keep, acquire, release, take, publish, drop, InRange,
  IsLocked,
}
use robot_ipc.HostVariable.Lock.Exclusion.{exclusive-full, shared-pos}

-- What a step has to show of the word: each count moves with the hold.
record Moves (w : ℕ) (h : Hold) (w' : ℕ) (h' : Hold) : Type 0 where
  fits : w' < u64_mod
  target : nibble w' 15 < shm_buffer_cnt
  open_target : nibble w' (nibble w' 15) < 15
  closed : (b : ℕ) → shm_buffer_cnt ≤ b → b < 15 → nibble w' b ≡ 15
  balance : (b : ℕ) → b < shm_buffer_cnt → nibble w' b + weight b h ≡ nibble w b + weight b h'
  range : InRange h'

module _ {n w : ℕ} {holds : ℕ → Hold} (locked : IsLocked n w holds) (i : ℕ) (hi : i < n) where
  Moves-IsLocked :
      {w' : ℕ} {h' : Hold} → Moves w (holds i) w' h' → IsLocked n w' (update holds i h')
  Moves-IsLocked {h'} m = record {
    fits = m.fits;
    target = m.target;
    open_target = m.open_target;
    closed = m.closed;
    counted = λ b hb.
        omega (arith, m.balance b hb, locked.counted b hb, total-update (weight b) n holds i h' hi);
    ranges = λ j hj. ground (arith, locked.ranges j hj, m.range);
  }

  -- One field other than the top one is stored.
  Stores-Moves :
      {t v w' : ℕ} {h' : Hold}
      → Stores w t v w'
      → t < shm_buffer_cnt
      → (t ≡ nibble w 15 → v < 15)
      → ((b : ℕ) → b ≢ t → weight b (holds i) ≡ weight b h')
      → v + weight t (holds i) ≡ nibble w t + weight t h'
      → InRange h'
      → Moves w (holds i) w' h'
  Stores-Moves {t} {v} {w'} {h'} s ht hv apart here range = record {
    fits = s.fits;
    target = omega (arith, s.others 15 (omega arith) (omega arith), locked.target);
    open_target = elim (ℕ_discrete t (nibble w 15)) [
      | yes same ↦ rw (s.others 15 (omega arith) (omega arith), ← same, s.stored) (hv same)
      | no other ↦
          rw
            (s.others 15 (omega arith) (omega arith), s.others (nibble w 15) (nibble-lt w 15) other)
            locked.open_target
    ];
    closed = λ b lo hb. s.others b (omega arith) (omega arith) ∙ locked.closed b lo hb;
    balance = λ b hb. elim (ℕ_discrete t b) [
      | yes same ↦ rw (← same) (omega (arith, s.stored, here))
      | no other ↦ omega (arith, s.others b (omega arith) other, apart b (λ e. other (sym e)))
    ];
    range = range;
  }

  Publishes-Moves :
      {b w' : ℕ}
      → Publishes w b w'
      → holds i ≡ exclusive b
      → b < shm_buffer_cnt
      → Moves w (holds i) w' free
  Publishes-Moves {b} {w'} p e hb = record {
    fits = p.fits;
    target = rw p.target hb;
    open_target = rw (p.target, p.freed) (omega arith);
    closed = λ c lo hc. p.others c hc (omega arith) ∙ locked.closed c lo hc;
    balance = λ c hc. elim (ℕ_discrete b c) [
      | yes same ↦ ground (arith, p.freed, exclusive-full locked b i hi e)
      | no other ↦ ground (arith, p.others c (omega arith) other)
    ];
    range = tt;
  }

  LockStep-Moves : {w' : ℕ} {h h' : Hold} → LockStep w h w' h' → h ≡ holds i → Moves w h w' h'
  LockStep-Moves keep e = record {
    fits = locked.fits;
    target = locked.target;
    open_target = locked.open_target;
    closed = locked.closed;
    balance = λ b hb. refl;
    range = rw e (locked.ranges i hi);
  }
  LockStep-Moves (acquire {t} is_target room s) e = rw e (
      Stores-Moves s (rw is_target locked.target) (λ _. omega arith) (λ b ne. ground arith)
        (ground arith) (rw is_target locked.target))
  LockStep-Moves (release {t} s) e =
      let held : 0 < nibble w t = shared-pos locked t i hi (sym e) in
      let range : t < shm_buffer_cnt = rw (sym e) at (locked.ranges i hi) in
      rw e (
        Stores-Moves s range (λ q. omega (arith, nibble-lt w t)) (λ b ne. ground arith)
          (ground arith) tt)
  LockStep-Moves (take {b} low is_free s) e =
      let range : b < shm_buffer_cnt = elim (dec_lt b shm_buffer_cnt) [
        | yes p ↦ p
        | no p ↦ absurd (omega (arith, locked.closed b (omega arith) low, is_free.0))
      ] in
      rw e (
        Stores-Moves s range (λ q. absurd (is_free.1 (sym q))) (λ c ne. ground arith)
          (ground (arith, is_free.0)) range)
  LockStep-Moves (publish {b} p) e =
      let range : b < shm_buffer_cnt = rw (sym e) at (locked.ranges i hi) in
      rw e (Publishes-Moves p (sym e) range)
  LockStep-Moves (drop {b} s) e =
      let range : b < shm_buffer_cnt = rw (sym e) at (locked.ranges i hi) in
      let full : nibble w b ≡ 15 = exclusive-full locked b i hi (sym e) in
      rw e (Stores-Moves s range (λ q. omega arith) (λ c ne. ground arith) (ground arith) tt)

  -- A step of process `i` keeps the invariant.
  pub LockStep-IsLocked :
      {w' : ℕ} {h' : Hold} → LockStep w (holds i) w' h' → IsLocked n w' (update holds i h')
  LockStep-IsLocked st = Moves-IsLocked (LockStep-Moves st refl)
