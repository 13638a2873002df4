-- ===== src/Examples/Tests.antt =====
-- A writer's pack of one word, and a reader that checks it.
use robot_ipc.Common.{
  ℕ, zero, suc, ◌<◌, ◌≡◌, ◌⊎◌, refl, arith, List, [], ◌∷◌, none, pos, pos_part, neg_part, ◌+◌, ◌*◌,
  ℕ_discrete,
}
use robot_ipc.Common.Bytes.{little_endian, little_endian-IsByteOrder}
use robot_ipc.Word.{◌<<<◌, ◌>>>◌, bit_not}
use robot_ipc.Word.Scan.{ctz}
use robot_ipc.HostVariable.Flags.{
  init_flags, acquire_read, release_read, claim, publish, drop_claim,
}
use robot_ipc.HostVariable.Process.{returned, advance, begin_read, begin_write}
use robot_ipc.HostVariable.System.{
  System, init, run_step, call, move, read, write, Reach, start, later,
}
use robot_ipc.HostVariable.History.{log, Member}
use robot_ipc.HostVariable.Timestamp.{Timespec}
use robot_ipc.HostVariable.Whole.{IsWhole, no_torn_read}
use robot_ipc.Examples.Latency.{second, diff, delay, diff_lem}
use robot_ipc.Examples.Integrity.{construct, pack_to_bytes, reader_round}
use robot_ipc.Examples.Integrity.Checked.{IsPack, integrity_holds}

abbrev bytes : List ℕ
bytes = 7 ∷ 1 ∷ 0 ∷ 0 ∷ 7 ∷ 1 ∷ 0 ∷ 0 ∷ []

packed : bytes ≡ pack_to_bytes little_endian (construct (263 ∷ []))
packed = refl

-- A state with the run that reaches it, in which every value written is a pack.
record Run : Type 0 where
  last : System
  reach : Reach 2 8 (λ a. 0) last
  whole : IsWhole (IsPack little_endian 1) reach

-- `k` accesses of process `i`.
steps : (k i : ℕ) → i < 2 → Run → Run
unfolding advance ℕ_discrete init_flags acquire_read release_read claim publish drop_claim ctz ◌<<<◌
    ◌>>>◌ bit_not
steps zero i hi r = r
steps (suc k) i hi r = steps k i hi (record {
  last = run_step 8 i r.last;
  reach = later r.reach (move i hi);
  whole = (tt, r.whole);
})

abbrev writing : Run
writing = record {
  last = call 0 (begin_write 9 bytes) (init (λ a. 0));
  reach = later start (write 0 9 bytes (omega arith) refl (omega arith));
  whole = ((refl, (263 ∷ [], refl, (omega arith, tt), packed)), tt);
}

abbrev written : Run
unfolding steps
written = steps 15 0 (omega arith) writing

abbrev answered : Run
unfolding steps
answered = steps 13 1 (omega arith) (record {
  last = call 1 (begin_read 8) written.last;
  reach = later written.reach (read 1 8 (omega arith) refl (omega arith));
  whole = (refl, written.whole);
})

read_returns : (answered.last.process 1).pc ≡ returned (pos 0) bytes
unfolding steps
read_returns = refl

no_torn_read_example :
    (bytes ≡ [])
    ⊎ ((answered.last.snapshot 1 ≡ [])
        ⊎ ((bytes ≡ answered.last.snapshot 1)
            × Member bytes (log answered.reach)
            × IsPack little_endian 1 bytes))
no_torn_read_example =
    no_torn_read (IsPack little_endian 1) answered.reach answered.whole 1 (omega arith) (pos 0)
      bytes read_returns

integrity_holds_example :
    (bytes ≡ [])
    ⊎ ((answered.last.snapshot 1 ≡ []) ⊎ (reader_round little_endian 1 (pos 0) bytes ≡ none))
integrity_holds_example =
    integrity_holds 1 little_endian little_endian-IsByteOrder answered.reach answered.whole 1
      (omega arith) bytes read_returns

abbrev sent : Timespec
sent = record { tv_sec = 5; tv_nsec = 900000000 }

abbrev arrived : Timespec
arrived = record { tv_sec = 7; tv_nsec = 100000000 }

diff_lem_example :
    let d = diff sent arrived in
    (n : ℕ) × (d.tv_nsec ≡ pos n)
    × (n < second)
    × (pos_part d.tv_sec * second + n + (5 * second + 900000000)
        ≡ neg_part d.tv_sec * second + (7 * second + 100000000))
    × (delay sent arrived ≡ d.tv_nsec)
diff_lem_example = diff_lem sent arrived (omega arith) (omega arith)
