-- ===== src/HostVariable/History/Published.antt =====
-- The records of the past hold published values only, and every answer begins like its record.
use robot_ipc.Common.{
  ℕ, ◌<◌, ◌≡◌, inl, inr, refl, sym, List, ◌∷◌, subst, Option, none, some, ℤ, true, false, ◌==◌,
  update, update_self, update_ne, ℕ_discrete, Bool-cases, if◌then◌else◌, ◌/◌,
}
use robot_ipc.HostVariable.Flags.{acquire_read}
use robot_ipc.HostVariable.Process.{
  Shm, Pc, read_cas, publish_cas, returned, Process, advance, begin_read, begin_write,
}
use robot_ipc.HostVariable.System.{
  System, note_publish, note_acquire, acquired, run_step, call, move, read, write, Reach, start,
  later,
}
use robot_ipc.HostVariable.Contents.{Inv}
use robot_ipc.HostVariable.Contents.Reachable.{Reach-Inv}
use robot_ipc.HostVariable.History.{note_log, log, IsLogged, Matches}
use robot_ipc.HostVariable.History.Answers.{advance-Matches}

note_log-IsLogged :
    (m : Shm) (pc : Pc) (x : List ℕ) (l : List (List ℕ))
    → IsLogged x l
    → IsLogged x (note_log m pc l)
note_log-IsLogged m (publish_cas target4 timestamp contents flags) x l h =
    elim (Bool-cases (m.flags == flags)) [
      | inl same ↦ rw same (elim h [ inl e ↦ inl e | inr k ↦ inr (inr k) ])
      | inr other ↦ rw other h
    ]
note_log-IsLogged m pc x l h = h

IsLogged-cons : (x y : List ℕ) (l : List (List ℕ)) → IsLogged x l → IsLogged x (y ∷ l)
IsLogged-cons x y l (inl e) = inl e
IsLogged-cons x y l (inr k) = inr (inr k)

update-IsLogged :
    (version : ℕ → List ℕ) (l : List (List ℕ)) (c : ℕ) (contents : List ℕ)
    → ((b : ℕ) → IsLogged (version b) l)
    → (b : ℕ) → IsLogged (update version c contents b) (contents ∷ l)
update-IsLogged version l c contents h b = elim (ℕ_discrete c b) [
  | yes e ↦ inr (inl (update_self version c contents b e))
  | no ne ↦
      subst (λ x. IsLogged x (contents ∷ l)) (sym (update_ne version c contents b ne))
        (IsLogged-cons (version b) contents l (h b))
]

note_publish-IsLogged :
    (m : Shm) (pc : Pc) (version : ℕ → List ℕ) (l : List (List ℕ))
    → ((b : ℕ) → IsLogged (version b) l)
    → (b : ℕ) → IsLogged (note_publish m pc version b) (note_log m pc l)
note_publish-IsLogged m (publish_cas target4 timestamp contents flags) version l h b =
    elim (m.flags == flags)
      as (λ t.
        IsLogged ((if t then update version (target4 / 4) contents else version) b)
          (if t then contents ∷ l else l)) [
            | true ↦ update-IsLogged version l (target4 / 4) contents h b
            | false ↦ h b
          ]
note_publish-IsLogged m pc version l h b = h b

acquired-IsLogged :
    (o : Option (ℕ × ℕ)) (version : ℕ → List ℕ) (old : List ℕ) (l : List (List ℕ))
    → ((b : ℕ) → IsLogged (version b) l)
    → IsLogged old l
    → IsLogged (acquired o version old) l
acquired-IsLogged none version old l h k = k
acquired-IsLogged (some (target, w)) version old l h k = h target

note_acquire-IsLogged :
    (m : Shm) (pc : Pc) (version : ℕ → List ℕ) (old : List ℕ) (l : List (List ℕ))
    → ((b : ℕ) → IsLogged (version b) l)
    → IsLogged old l
    → IsLogged (note_acquire m pc version old) l
note_acquire-IsLogged m (read_cas op_size flags) version old l h k =
    elim (Bool-cases (m.flags == flags)) [
      | inl same ↦ rw same (acquired-IsLogged (acquire_read flags) version old l h k)
      | inr other ↦ rw other k
    ]
note_acquire-IsLogged m pc version old l h k = k

-- What the log says of a state.
pub record Answered (n : ℕ) (s : System) (l : List (List ℕ)) : Type 0 where
  pub versions : (b : ℕ) → IsLogged (s.version b) l
  pub snapshots : (i : ℕ) → IsLogged (s.snapshot i) l
  pub answers :
      (i : ℕ)
      → i < n
      → (code : ℤ) (buf : List ℕ) → (s.process i).pc ≡ returned code buf
      → Matches buf (s.snapshot i)

module _ {n size : ℕ} {s : System} {l : List (List ℕ)} (inv : Inv n size s) (known : Answered n s l)
    (i : ℕ) (hi : i < n) where
  abbrev pc : Pc
  pc = (s.process i).pc

  abbrev after : Process
  after = (advance size s.mem (s.process i).should_wait pc).process

  move-answers :
      (j : ℕ)
      → j < n
      → (code : ℤ) (buf : List ℕ) → ((run_step size i s).process j).pc ≡ returned code buf
      → Matches buf ((run_step size i s).snapshot j)
  move-answers j hj code buf e = elim (ℕ_discrete i j) [
    | yes same ↦ rw (update_self s.snapshot i _ j same) (
        advance-Matches size s.mem (s.process i).should_wait pc code buf s.version (s.snapshot i)
          (inv.locals i hi) (λ b h. (inv.live b (inr (i, hi, h)), inv.seen i b hi h))
          (known.answers i hi) (rw (update_self s.process i after j same) at e))
    | no ne ↦
        rw (update_ne s.snapshot i _ j ne)
          (known.answers j hj code buf (rw (update_ne s.process i after j ne) at e))
  ]

  move-Answered : Answered n (run_step size i s) (note_log s.mem pc l)
  move-Answered = record {
    versions = note_publish-IsLogged s.mem pc s.version l known.versions;
    snapshots = λ j. note_log-IsLogged s.mem pc _ l (elim (ℕ_discrete i j) [
      | yes same ↦ rw (update_self s.snapshot i _ j same) (
          note_acquire-IsLogged s.mem pc s.version (s.snapshot i) l known.versions
            (known.snapshots i))
      | no ne ↦ rw (update_ne s.snapshot i _ j ne) (known.snapshots j)
    ]);
    answers = move-answers;
  }

-- A call has no answer yet.
call-Answered :
    {n : ℕ} {s : System} {l : List (List ℕ)}
    → Answered n s l
    → (i : ℕ) (p : Process) → ((code : ℤ) (buf : List ℕ) → ¬ (p.pc ≡ returned code buf))
    → Answered n (call i p s) l
call-Answered {s} known i p busy = record {
  versions = known.versions;
  snapshots = known.snapshots;
  answers = λ j hj code buf e. elim (ℕ_discrete i j) [
    | yes same ↦ absurd (busy code buf (rw (update_self s.process i p j same) at e))
    | no ne ↦ known.answers j hj code buf (rw (update_ne s.process i p j ne) at e)
  ];
}

pub Reach-Answered :
    {n size : ℕ} {bytes : ℕ → ℕ} {s : System} (r : Reach n size bytes s) → Answered n s (log r)
Reach-Answered start = record {
  versions = λ b. inl refl;
  snapshots = λ i. inl refl;
  answers = λ i hi code buf e. cc;
}
Reach-Answered (later r (move i hi)) = move-Answered (Reach-Inv r) (Reach-Answered r) i hi
Reach-Answered (later r (read i op_size hi h fits)) =
    call-Answered (Reach-Answered r) i (begin_read op_size) (λ code buf e. cc)
Reach-Answered (later r (write i timestamp contents hi h fits)) =
    call-Answered (Reach-Answered r) i (begin_write timestamp contents) (λ code buf e. cc)
