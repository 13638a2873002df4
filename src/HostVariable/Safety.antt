-- ===== src/HostVariable/Safety.antt =====
-- What any number of processes can rely on in every reachable state of a shared variable.
use robot_ipc.Common.{ℕ, ◌<◌, ◌≡◌, ◌≢◌, ◌⊎◌, ◌∙◌, refl, sym, List, some, ℤ, ==_iff, update_self, ap}
use robot_ipc.HostVariable.Flags.{acquire_read, target_of}
use robot_ipc.HostVariable.Flags.Target.{target-nibble}
use robot_ipc.HostVariable.Flags.Readers.{acquire_read-eq-some}
use robot_ipc.HostVariable.Process.{read_cas, returned}
use robot_ipc.HostVariable.Lock.{shared, exclusive}
use robot_ipc.HostVariable.Lock.Exclusion.{exclusive_alone, exclusive-ne-target}
use robot_ipc.HostVariable.System.{System, holds, note_acquire, run_step, Reach}
use robot_ipc.HostVariable.Contents.Reachable.{Reach-Inv}
use robot_ipc.HostVariable.History.{log, latest, IsLogged, Matches}
use robot_ipc.HostVariable.History.Latest.{target-latest}
use robot_ipc.HostVariable.History.Published.{Reach-Answered}

-- In every reachable state, a buffer that process `i` has claimed for writing is not the target, and
-- a process that holds it, for writing or for reading, is `i`.
pub mutual_exclusion :
    {n size : ℕ} {bytes : ℕ → ℕ} {s : System}
    → Reach n size bytes s
    → (b i j : ℕ) → i < n
    → j < n
    → holds s.process i ≡ exclusive b
    → (holds s.process j ≡ exclusive b) ⊎ (holds s.process j ≡ shared b)
    → (target_of s.mem.flags ≢ b) × (i ≡ j)
mutual_exclusion {s} r b i j hi hj e h =
    let locked = (Reach-Inv r).locked in
    (
      λ t. exclusive-ne-target locked b i hi e (sym (target-nibble s.mem.flags locked.fits) ∙ t),
      exclusive_alone locked b i j hi hj e h,
    )

-- In every reachable state, when a call has returned, its buffer and the value that the target had
-- when the process last acquired it agree on every byte that both have; that value was published
-- before, or nothing was published before it was acquired.
pub read-is-published :
    {n size : ℕ} {bytes : ℕ → ℕ} {s : System} (r : Reach n size bytes s)
    → (i : ℕ) → i < n
    → (code : ℤ) (buf : List ℕ) → (s.process i).pc ≡ returned code buf
    → Matches buf (s.snapshot i) × IsLogged (s.snapshot i) (log r)
read-is-published r i hi code buf e =
    let known = Reach-Answered r in (known.answers i hi code buf e, known.snapshots i)

-- In every reachable state, the successful compare-exchange of a read records the value that was
-- published last: where the flags are still those that were loaded and the target has room for a
-- reader, the value recorded for the process is the latest one of the log.
pub read-latest :
    {n size : ℕ} {bytes : ℕ → ℕ} {s : System} (r : Reach n size bytes s)
    → (i op_size flags target new_flags : ℕ) → (s.process i).pc ≡ read_cas op_size flags
    → s.mem.flags ≡ flags
    → acquire_read flags ≡ some (target, new_flags)
    → (run_step size i s).snapshot i ≡ latest (log r)
read-latest {size} {s} r i op_size flags target new_flags e same found =
    let locked = (Reach-Inv r).locked in
    let (is_target, _, _) =
      acquire_read-eq-some s.mem.flags target new_flags locked.fits locked.open_target
        (ap acquire_read same ∙ found) in
    update_self s.snapshot i (note_acquire s.mem (s.process i).pc s.version (s.snapshot i)) i refl
    ∙ rw (e, (==_iff s.mem.flags flags).1 same, found) (ap s.version is_target ∙ target-latest r)
