-- ===== src/HostVariable/Alone/Writing.antt =====
-- A write that nobody interrupts.
use robot_ipc.Common.{
  ℕ, suc, ◌+◌, ◌*◌, ◌<◌, ◌≡◌, ◌≢◌, refl, sym, ◌∙◌, ap, arith, false, List, [], ◌∷◌, pos, leb,
  ==_iff, update, update_self, update_ne, length,
}
use robot_ipc.Word.{u64_mod, nibble, ◌>>>◌}
use robot_ipc.HostVariable.Flags.{publish, target_of}
use robot_ipc.HostVariable.Flags.Target.{target-nibble}
use robot_ipc.HostVariable.Flags.Writers.{Claimed, publish-Publishes}
use robot_ipc.HostVariable.Process.{
  Shm, to, begin_write, write_load, write_copy, publish_load, returned, advance,
}
use robot_ipc.HostVariable.Alone.{run, run-add}

-- The bytes once those of `rest` are stored from place `k` on.
abbrev pub stored : (bytes : ℕ → ℕ) (base k : ℕ) → List ℕ → ℕ → ℕ
stored bytes base k [] = bytes
stored bytes base k (x ∷ rest) = stored (update bytes (base + k) x) base (k + 1) rest

write_copy_lem :
    (size wait target4 timestamp k : ℕ) (contents rest : List ℕ) (m : Shm)
    → run size (suc (length rest)) (to m wait (write_copy target4 timestamp contents k rest))
      ≡ to
          (record m { bytes = stored m.bytes ((target4 >>> 2) * size) k rest })
          wait
          (publish_load target4 timestamp contents)
unfolding run advance
write_copy_lem size wait target4 timestamp k contents [] m = refl
write_copy_lem size wait target4 timestamp k contents (x ∷ rest) m =
    write_copy_lem size wait target4 timestamp (k + 1) contents rest
      (record m { bytes = update m.bytes ((target4 >>> 2) * size + k) x })

-- What a write leaves: buffer `b` is the target, with no reader, and holds the contents.
pub record Written (size : ℕ) (m : Shm) (b timestamp : ℕ) (contents : List ℕ) (m' : Shm)
    : Type 0 where
  pub fits : m'.flags < u64_mod
  pub target : nibble m'.flags 15 ≡ b
  pub unread : nibble m'.flags b ≡ 0
  pub others : (i : ℕ) → i < 15 → i ≢ b → nibble m'.flags i ≡ nibble m.flags i
  pub stamp : m'.timestamp b ≡ timestamp
  pub bytes : m'.bytes ≡ stored m.bytes (b * size) 0 contents

module _ (size b w' timestamp : ℕ) (contents : List ℕ) (m : Shm) (fits : m.flags < u64_mod)
    (claimed : Claimed m.flags b w') (newest : m.timestamp (nibble m.flags 15) < timestamp) where
  quarter : b * 4 >>> 2 ≡ b
  unfolding ◌>>>◌
  quarter = omega arith

  target_kept : target_of w' ≡ nibble m.flags 15
  target_kept =
      target-nibble w' claimed.marks.fits
      ∙ claimed.marks.others 15 (omega arith) (λ e. absurd (omega (arith, claimed.low)))

  abbrev stamped : Shm
  stamped = record m { flags = w'; timestamp = update m.timestamp (b * 4 >>> 2) timestamp }

  abbrev filled : Shm
  filled = record stamped { bytes = stored m.bytes ((b * 4 >>> 2) * size) 0 contents }

  claims :
      run size 3 (to m 2 (write_load timestamp contents))
      ≡ to stamped 2 (write_copy (b * 4) timestamp contents 0 contents)
  unfolding run advance
  claims = rw (claimed.returns, (==_iff m.flags m.flags).1 refl) refl

  abbrev old_stamp : ℕ
  old_stamp = update m.timestamp (b * 4 >>> 2) timestamp (target_of w')

  is_newest : leb timestamp old_stamp ≡ false
  is_newest =
      let e : old_stamp ≡ m.timestamp (nibble m.flags 15) =
        ap (update m.timestamp (b * 4 >>> 2) timestamp) target_kept
        ∙ update_ne m.timestamp (b * 4 >>> 2) timestamp (nibble m.flags 15)
            (λ s. claimed.free.1 (sym s ∙ quarter)) in
      ground (arith, e)

  publishes :
      run size 3 (to filled 2 (publish_load (b * 4) timestamp contents))
      ≡ to (record filled { flags = publish (b * 4) w' }) 0 (returned (pos 0) [])
  unfolding run advance
  publishes = rw (is_newest, (==_iff w' w').1 refl) refl

  abbrev pub after_write : Shm
  after_write = record filled { flags = publish (b * 4) w' }

  pub write_runs :
      run size
        (3 + (suc (length contents) + 3))
        (record { mem = m; process = begin_write timestamp contents })
      ≡ to after_write 0 (returned (pos 0) [])
  write_runs =
      run-add size 3 (suc (length contents) + 3) (to m 2 (write_load timestamp contents))
      ∙ ap (run size (suc (length contents) + 3)) claims
      ∙ run-add size (suc (length contents)) 3
          (to stamped 2 (write_copy (b * 4) timestamp contents 0 contents))
      ∙ ap (run size 3) (write_copy_lem size 2 (b * 4) timestamp 0 contents contents stamped)
      ∙ publishes

  pub write-Written : Written size m b timestamp contents after_write
  write-Written =
      let p = publish-Publishes w' b claimed.marks.fits claimed.low in
      record {
        fits = p.fits;
        target = p.target;
        unread = p.freed;
        others = λ i hi ne.
            p.others i hi (λ e. ne (sym e))
            ∙ claimed.marks.others i (omega arith) (λ e. ne (sym e));
        stamp = update_self m.timestamp (b * 4 >>> 2) timestamp b quarter;
        bytes = ap (λ (q : ℕ). stored m.bytes (q * size) 0 contents) quarter;
      }
