-- ===== src/HostVariable/Whole.antt =====
-- Runs in which every call moves the whole variable: `op_size` is the variable's `size`.
use robot_ipc.Common.{
  ℕ, zero, suc, ◌*◌, leb, ◌+◌, ◌<◌, ◌≡◌, ◌⊎◌, inl, inr, refl, sym, ◌∙◌, arith, List, [], ◌∷◌,
  Option, none, some, ℤ, ◌==◌, eq_of_get_or, length, length-append, Bool-cases, update, update_self,
  update_ne, ℕ_discrete, subst,
}
use robot_ipc.HostVariable.Flags.{acquire_read, claim, target_of}
use robot_ipc.HostVariable.Process.{
  Shm, Pc, idle, write_drop, begin_read, begin_write, read_load, read_cas, read_copy, release_load,
  release_cas, write_load, write_cas, write_stamp, write_copy, publish_load, publish_check,
  publish_cas, returned, Process, advance, attempt_read, attempt_claim,
}
use robot_ipc.HostVariable.System.{System, Step, move, read, write, Reach, start, later}
use robot_ipc.HostVariable.History.{log, note_log, Member}
use robot_ipc.HostVariable.Safety.{read-is-published}

module _ (P : List ℕ → Type 0) where
  -- What every value that is written has, its size included.
  abbrev IsGood : (size : ℕ) → List ℕ → Type 0
  IsGood size contents = (length contents ≡ size) × P contents

  -- Every call moves the whole variable, and every value that is written has the property.
  abbrev pub MovesWhole : {n size : ℕ} {s t : System} → Step n size s t → Type 0
  MovesWhole (move i hi) = Unit
  MovesWhole {size} (read i op_size hi h fits) = op_size ≡ size
  MovesWhole {size} (write i timestamp contents hi h fits) = IsGood size contents

  abbrev pub IsWhole : {n size : ℕ} {bytes : ℕ → ℕ} {s : System} → Reach n size bytes s → Type 0
  IsWhole start = Unit
  IsWhole (later r st) = MovesWhole st × IsWhole r

  -- The sizes of what a process carries in such a run.
  abbrev Carries : (size : ℕ) → Pc → Type 0
  Carries size (read_load op_size) = op_size ≡ size
  Carries size (read_cas op_size flags) = op_size ≡ size
  Carries size (read_copy target k left buf) = length buf + left ≡ size
  Carries size (release_load target buf) = length buf ≡ size
  Carries size (release_cas target buf flags) = length buf ≡ size
  Carries size (write_load timestamp contents) = IsGood size contents
  Carries size (write_cas timestamp contents flags) = IsGood size contents
  Carries size (write_stamp target4 timestamp contents) = IsGood size contents
  Carries size (write_copy target4 timestamp contents k rest) = IsGood size contents
  Carries size (publish_load target4 timestamp contents) = IsGood size contents
  Carries size (publish_check target4 timestamp contents flags) = IsGood size contents
  Carries size (publish_cas target4 timestamp contents flags) = IsGood size contents
  Carries size (returned code buf) = (buf ≡ []) ⊎ (length buf ≡ size)
  Carries size pc = Unit

  attempt_read-Carries :
      (size : ℕ) (m : Shm) (wait op_size flags : ℕ) (o : Option (ℕ × ℕ))
      → op_size ≡ size
      → Carries size (attempt_read m wait op_size flags o).process.pc
  attempt_read-Carries size m wait op_size flags none e = inl refl
  attempt_read-Carries size m wait op_size flags (some (target, w)) e =
      elim (Bool-cases (m.flags == flags)) [
        | inl same ↦ rw same (omega arith)
        | inr other ↦ rw other e
      ]

  attempt_claim-Carries :
      (size : ℕ) (m : Shm) (wait timestamp : ℕ) (contents : List ℕ) (flags : ℕ) (o : Option (ℕ × ℕ))
      → IsGood size contents
      → Carries size (attempt_claim m wait timestamp contents flags o).process.pc
  attempt_claim-Carries size m wait timestamp contents flags none e = inl refl
  attempt_claim-Carries size m wait timestamp contents flags (some (target4, w)) e =
      elim (Bool-cases (m.flags == flags)) [ inl same ↦ rw same e | inr other ↦ rw other e ]

  advance-Carries :
      (size : ℕ) (m : Shm) (wait : ℕ) (pc : Pc)
      → Carries size pc
      → Carries size (advance size m wait pc).process.pc
  unfolding advance
  advance-Carries size m wait (read_cas op_size flags) c =
      attempt_read-Carries size m wait op_size flags (acquire_read flags) c
  advance-Carries size m wait (read_copy target k zero buf) c = omega (arith, c)
  advance-Carries size m wait (read_copy target k (suc left) buf) c =
      omega (arith, c, length-append buf (m.bytes (target * size + k) ∷ []))
  advance-Carries size m wait (release_cas target buf flags) c =
      elim (Bool-cases (m.flags == flags)) [ inl same ↦ rw same (inr c) | inr other ↦ rw other c ]
  advance-Carries size m wait (write_cas timestamp contents flags) c =
      attempt_claim-Carries size m wait timestamp contents flags (claim flags) c
  advance-Carries size m wait (write_copy target4 timestamp contents k []) c = c
  advance-Carries size m wait (write_copy target4 timestamp contents k (x ∷ rest)) c = c
  advance-Carries size m wait (publish_check target4 timestamp contents flags) c =
      elim (Bool-cases (leb timestamp (m.timestamp (target_of flags)))) [
        | inl late ↦ rw late tt
        | inr newer ↦ rw newer c
      ]
  advance-Carries size m wait (publish_cas target4 timestamp contents flags) c =
      elim (Bool-cases (m.flags == flags)) [
        | inl same ↦ rw same (inl refl)
        | inr other ↦ rw other c
      ]
  advance-Carries size m wait (write_drop target4) c = inl refl
  advance-Carries size m wait idle c = tt
  advance-Carries size m wait pc c = c

  abbrev AllGood : (size : ℕ) → List (List ℕ) → Type 0
  AllGood size [] = Unit
  AllGood size (x ∷ l) = IsGood size x × AllGood size l

  note_log-AllGood :
      (size : ℕ) (m : Shm) (pc : Pc) (l : List (List ℕ))
      → Carries size pc
      → AllGood size l
      → AllGood size (note_log m pc l)
  note_log-AllGood size m (publish_cas target4 timestamp contents flags) l c h =
      elim (Bool-cases (m.flags == flags)) [ inl same ↦ rw same (c, h) | inr other ↦ rw other h ]
  note_log-AllGood size m pc l c h = h

  Member-AllGood :
      (size : ℕ) (x : List ℕ) (l : List (List ℕ)) → AllGood size l → Member x l → IsGood size x
  Member-AllGood size x [] h k = absurd k
  Member-AllGood size x (y ∷ l) h (inl e) = subst (IsGood size) (sym e) h.0
  Member-AllGood size x (y ∷ l) h (inr k) = Member-AllGood size x l h.1 k

  update-Carries :
      (size : ℕ) (ps : ℕ → Process) (i j : ℕ) (p : Process)
      → Carries size p.pc
      → Carries size (ps j).pc
      → Carries size (update ps i p j).pc
  update-Carries size ps i j p c h = elim (ℕ_discrete i j) [
    | yes same ↦ rw (update_self ps i p j same) c
    | no ne ↦ rw (update_ne ps i p j ne) h
  ]

  Reach-Carries :
      {n size : ℕ} {bytes : ℕ → ℕ} {s : System} (r : Reach n size bytes s)
      → IsWhole r
      → ((j : ℕ) → Carries size (s.process j).pc) × AllGood size (log r)
  Reach-Carries start whole = (λ j. tt, tt)
  Reach-Carries {size} (later {s} r (move i hi)) whole =
      let (carries, sized) = Reach-Carries r whole.1 in
      (
        λ j.
            update-Carries size s.process i j _
              (advance-Carries size s.mem (s.process i).should_wait (s.process i).pc (carries i))
              (carries j),
        note_log-AllGood size s.mem (s.process i).pc (log r) (carries i) sized,
      )
  Reach-Carries {size} (later {s} r (read i op_size hi h fits)) whole =
      let (carries, sized) = Reach-Carries r whole.1 in
      (λ j. update-Carries size s.process i j (begin_read op_size) whole.0 (carries j), sized)
  Reach-Carries {size} (later {s} r (write i timestamp contents hi h fits)) whole =
      let (carries, sized) = Reach-Carries r whole.1 in
      (
        λ j. update-Carries size s.process i j (begin_write timestamp contents) whole.0 (carries j),
        sized,
      )

  -- In a run in which every call moves the whole variable and every written value has a property, what
  -- a completed call returns is not torn: it is nothing, as a write and a refused read return, or it
  -- is byte for byte one published value, the one that the target held when the process last acquired
  -- it, and has the property; unless nothing was published before.
  pub no_torn_read :
      {n size : ℕ} {bytes : ℕ → ℕ} {s : System} (r : Reach n size bytes s)
      → IsWhole r
      → (i : ℕ) → i < n
      → (code : ℤ) (buf : List ℕ) → (s.process i).pc ≡ returned code buf
      → (buf ≡ []) ⊎ ((s.snapshot i ≡ []) ⊎ ((buf ≡ s.snapshot i) × Member buf (log r) × P buf))
  no_torn_read {size} {s} r whole i hi code buf e =
      let (carries, sized) = Reach-Carries r whole in
      let (agrees, logged) = read-is-published r i hi code buf e in
      let mine : Carries size (returned code buf) = subst (Carries size) e (carries i) in
      elim mine [
        | inl none_read ↦ inl none_read
        | inr full ↦ elim logged [
          | inl fresh ↦ inr (inl fresh)
          | inr member ↦
              let good = Member-AllGood size (s.snapshot i) (log r) sized member in
              let lengths : length buf ≡ length (s.snapshot i) = full ∙ sym good.0 in
              let same : buf ≡ s.snapshot i =
                eq_of_get_or buf (s.snapshot i) lengths
                  (λ j hj. agrees j hj (omega (arith, hj, lengths))) in
              inr (
                inr (
                  same,
                  subst (λ x. Member x (log r)) (sym same) member,
                  subst P (sym same) good.1,
                ))
        ]
      ]
