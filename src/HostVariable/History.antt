-- ===== src/HostVariable/History.antt =====
-- The values that were published, in order, along a run of the system; and what a read returns,
-- in terms of them.
pub mod Latest
pub mod Answers
pub mod Published
use robot_ipc.Common.{ℕ, ◌≡◌, ◌⊎◌, List, [], ◌∷◌, ◌==◌, if◌then◌else◌, get_or, length, ◌<◌}
use robot_ipc.HostVariable.Process.{Shm, Pc, publish_cas, returned}
use robot_ipc.HostVariable.System.{System, Step, move, read, write, Reach, start, later}

-- The publication that an access makes, if it makes one, comes first.
abbrev pub note_log : Shm → Pc → List (List ℕ) → List (List ℕ)
note_log m (publish_cas target4 timestamp contents flags) log =
    if m.flags == flags then contents ∷ log else log
note_log m pc log = log

abbrev pub step_log : {n size : ℕ} {s t : System} → Step n size s t → List (List ℕ) → List (List ℕ)
step_log {s} (move i hi) log = note_log s.mem (s.process i).pc log
step_log (read i op_size hi h fits) log = log
step_log (write i timestamp contents hi h fits) log = log

-- The values published on the way to a state, the last one first.
abbrev pub log : {n size : ℕ} {bytes : ℕ → ℕ} {s : System} → Reach n size bytes s → List (List ℕ)
log start = []
log (later r st) = step_log st (log r)

-- Nothing is known of the bytes of a variable before its first publication.
abbrev pub latest : List (List ℕ) → List ℕ
latest [] = []
latest (contents ∷ log) = contents

abbrev pub Member : List ℕ → List (List ℕ) → Type 0
Member x [] = ⊥
Member x (y ∷ l) = (x ≡ y) ⊎ Member x l

abbrev pub IsLogged : List ℕ → List (List ℕ) → Type 0
IsLogged x l = (x ≡ []) ⊎ Member x l

-- `buf` is the beginning of `contents`, as far as both go.
abbrev pub Matches : List ℕ → List ℕ → Type 0
Matches buf contents =
    (j : ℕ) → j < length buf → j < length contents → get_or buf j 0 ≡ get_or contents j 0
