-- ===== src/HostVariable/Tests.antt =====
-- Runs of two processes, and the theorems at the states that they reach.
mod Words
mod Links
use robot_ipc.Common.{
  ℕ, zero, suc, ◌<◌, ◌≡◌, ◌≢◌, ◌⊎◌, inl, refl, arith, [], ◌∷◌, some, pos, ℕ_discrete,
}
use robot_ipc.Word.{◌<<<◌, ◌>>>◌, bit_not}
use robot_ipc.Word.Scan.{ctz}
use robot_ipc.HostVariable.Flags.{
  init_flags, target_of, acquire_read, release_read, claim, publish, drop_claim,
}
use robot_ipc.HostVariable.Process.{read_cas, returned, advance, begin_read, begin_write}
use robot_ipc.HostVariable.Lock.{exclusive}
use robot_ipc.HostVariable.System.{
  System, holds, init, run_step, call, move, read, write, Reach, start, later,
}
use robot_ipc.HostVariable.History.{log, latest, IsLogged, Matches}
use robot_ipc.Common.{◌-◌, ◌+◌, none}
use robot_ipc.Word.{nibble}
use robot_ipc.HostVariable.Flags.{shm_buffer_cnt}
use robot_ipc.HostVariable.Flags.Target.{Stores}
use robot_ipc.HostVariable.Flags.Readers.{acquire_read_lem, acquire_read-full, release_read-Stores}
use robot_ipc.HostVariable.Flags.Writers.{
  IsFree, Claimed, claim_cases, Publishes, publish-Publishes, drop_claim-Stores,
}
use robot_ipc.HostVariable.Process.{read_copy, write_copy}
use robot_ipc.HostVariable.Lock.{LockStep}
use robot_ipc.HostVariable.System.{hold_of}
use robot_ipc.HostVariable.Contents.{Inv}
use robot_ipc.HostVariable.Contents.Reachable.{Reach-Inv}
use robot_ipc.HostVariable.Access.{advance-LockStep, read_in_bounds, write_in_bounds}
use robot_ipc.HostVariable.Safety.{mutual_exclusion, read-is-published, read-latest}

-- A state with the run that reaches it.
record Run : Type 0 where
  last : System
  reach : Reach 2 4 (λ a. 0) last

-- `k` accesses of process `i`.
steps : (k i : ℕ) → i < 2 → Run → Run
unfolding advance ℕ_discrete init_flags acquire_read release_read claim publish drop_claim ctz ◌<<<◌
    ◌>>>◌ bit_not
steps zero i hi r = r
steps (suc k) i hi r =
    steps k i hi (record { last = run_step 4 i r.last; reach = later r.reach (move i hi) })

abbrev fresh : Run
fresh = record { last = init (λ a. 0); reach = start }

-- Process 0 writes three bytes; it has claimed buffer 1 after two accesses.
abbrev writing : Run
writing = record {
  last = call 0 (begin_write 7 (10 ∷ 20 ∷ 30 ∷ [])) fresh.last;
  reach = later fresh.reach (write 0 7 (10 ∷ 20 ∷ 30 ∷ []) (omega arith) refl (omega arith));
}

abbrev claimed : Run
claimed = steps 2 0 (omega arith) writing

abbrev written : Run
written = steps 10 0 (omega arith) writing

-- Process 1 then reads them: it has loaded the flags, and later it returns.
abbrev reading : Run
unfolding steps
reading = steps 1 1 (omega arith) (record {
  last = call 1 (begin_read 3) written.last;
  reach = later written.reach (read 1 3 (omega arith) refl (omega arith));
})

abbrev answered : Run
unfolding steps
answered = steps 8 1 (omega arith) reading

write_returns : (written.last.process 0).pc ≡ returned (pos 0) []
unfolding steps
write_returns = refl

read_returns : (answered.last.process 1).pc ≡ returned (pos 0) (10 ∷ 20 ∷ 30 ∷ [])
unfolding steps
read_returns = refl

published_once : log answered.reach ≡ (10 ∷ 20 ∷ 30 ∷ []) ∷ []
unfolding steps
published_once = refl

claimed_buffer : holds claimed.last.process 0 ≡ exclusive 1
unfolding steps
claimed_buffer = refl

loaded : (reading.last.process 1).pc ≡ read_cas 3 0x1FFFFFFFFFFF0000
unfolding steps
loaded = refl

mutual_exclusion_example : (target_of claimed.last.mem.flags ≢ 1) × ◌≡◌ {A = ℕ} 0 0
mutual_exclusion_example =
    mutual_exclusion claimed.reach 1 0 0 (omega arith) (omega arith) claimed_buffer
      (inl claimed_buffer)

read-is-published_example :
    Matches (10 ∷ 20 ∷ 30 ∷ []) (answered.last.snapshot 1)
    × IsLogged (answered.last.snapshot 1) (log answered.reach)
read-is-published_example =
    read-is-published answered.reach 1 (omega arith) (pos 0) (10 ∷ 20 ∷ 30 ∷ []) read_returns

flags_loaded : reading.last.mem.flags ≡ 0x1FFFFFFFFFFF0000
unfolding steps
flags_loaded = refl

room : acquire_read 0x1FFFFFFFFFFF0000 ≡ some (1, 0x1FFFFFFFFFFF0010)
unfolding steps
room = refl

read-latest_example : (run_step 4 1 reading.last).snapshot 1 ≡ latest (log reading.reach)
read-latest_example =
    read-latest reading.reach 1 3 0x1FFFFFFFFFFF0000 1 0x1FFFFFFFFFFF0010 loaded flags_loaded room

-- The first store of the writer, and the first load of the reader.
abbrev storing : Run
storing = steps 3 0 (omega arith) writing

abbrev copying : Run
unfolding steps
copying = steps 1 1 (omega arith) reading

stores_first :
    (storing.last.process 0).pc ≡ write_copy 4 7 (10 ∷ 20 ∷ 30 ∷ []) 0 (10 ∷ 20 ∷ 30 ∷ [])
unfolding steps
stores_first = refl

copies_first : (copying.last.process 1).pc ≡ read_copy 1 0 3 []
unfolding steps
copies_first = refl

read_in_bounds_example : (1 < shm_buffer_cnt) × (0 < 4)
read_in_bounds_example = read_in_bounds copying.reach 1 1 0 2 [] (omega arith) copies_first

write_in_bounds_example : (4 >>> 2 < shm_buffer_cnt) × (0 < 4)
write_in_bounds_example =
    write_in_bounds storing.reach 0 4 7 0 10 (10 ∷ 20 ∷ 30 ∷ []) (20 ∷ 30 ∷ []) (omega arith)
      stores_first

advance-LockStep_example :
    let old = storing.last.process 0 in
    let next = advance 4 storing.last.mem old.should_wait old.pc in
    LockStep storing.last.mem.flags (hold_of old.pc) next.mem.flags (hold_of next.process.pc)
advance-LockStep_example = advance-LockStep storing.reach 0 (omega arith)

Reach-Inv_example : Inv 2 4 answered.last
Reach-Inv_example = Reach-Inv answered.reach
