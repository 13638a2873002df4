-- ===== src/HostVariable/History/Answers.antt =====
-- What a read has in its buffer when it returns.
use robot_ipc.Common.{
  ℕ, zero, suc, ◌≡◌, inl, inr, ◌∙◌, refl, sym, arith, List, [], ◌∷◌, ap, subst, Option, none, some,
  ℤ, pos, ◌==◌, length, Bool-cases,
}
use robot_ipc.HostVariable.Flags.{acquire_read, claim}
use robot_ipc.HostVariable.Process.{
  Shm, Pc, read_cas, read_copy, release_cas, write_cas, write_copy, publish_check, publish_cas,
  write_drop, returned, advance, attempt_read, attempt_claim,
}
use robot_ipc.HostVariable.Lock.{shared}
use robot_ipc.HostVariable.System.{hold_of, note_acquire}
use robot_ipc.HostVariable.Contents.{Local, Holds}
use robot_ipc.HostVariable.History.{Matches}

Matches-nil : (contents buf : List ℕ) → buf ≡ [] → Matches buf contents
Matches-nil contents buf e j hj hk = absurd (omega (arith, ap length e))

buf_of : Pc → List ℕ
buf_of (returned code buf) = buf
buf_of pc = []

returned-buf :
    {code code' : ℤ} {buf buf' : List ℕ} → returned code buf ≡ returned code' buf' → buf ≡ buf'
unfolding buf_of
returned-buf e = ap buf_of e

attempt_read-Matches :
    (m : Shm) (wait op_size flags : ℕ) (o : Option (ℕ × ℕ)) (code : ℤ) (buf contents : List ℕ)
    → (attempt_read m wait op_size flags o).process.pc ≡ returned code buf
    → Matches buf contents
attempt_read-Matches m wait op_size flags none code buf contents e =
    Matches-nil contents buf (sym (returned-buf e))
attempt_read-Matches m wait op_size flags (some (target, w)) code buf contents e =
    absurd (ground arith)

attempt_claim-Matches :
    (m : Shm) (wait timestamp : ℕ) (written : List ℕ) (flags : ℕ) (o : Option (ℕ × ℕ)) (code : ℤ)
    (buf contents : List ℕ)
    → (attempt_claim m wait timestamp written flags o).process.pc ≡ returned code buf
    → Matches buf contents
attempt_claim-Matches m wait timestamp written flags none code buf contents e =
    Matches-nil contents buf (sym (returned-buf e))
attempt_claim-Matches m wait timestamp written flags (some (target4, w)) code buf contents e =
    absurd (ground arith)

-- The buffer that a call returns with begins like what the process saw when it acquired.
pub advance-Matches :
    (size : ℕ) (m : Shm) (wait : ℕ) (pc : Pc) (code : ℤ) (buf : List ℕ) (version : ℕ → List ℕ)
    (old : List ℕ)
    → Local size m pc
    → ((b : ℕ) → hold_of pc ≡ shared b → Holds size m (version b) b × (old ≡ version b))
    → ((c : ℤ) (xs : List ℕ) → pc ≡ returned c xs → Matches xs old)
    → (advance size m wait pc).process.pc ≡ returned code buf
    → Matches buf (note_acquire m pc version old)
unfolding advance
advance-Matches size m wait (read_cas op_size flags) code buf version old l held before e =
    attempt_read-Matches m wait op_size flags (acquire_read flags) code buf _ e
advance-Matches size m wait (release_cas target xs flags) code buf version old l held before e =
    elim (Bool-cases (m.flags == flags)) [
      | inl same ↦
          let now : returned (pos 0) xs ≡ returned code buf = rw same at e in
          let (holds_version, seen) = held target refl in
          subst (λ ys. Matches ys old) (returned-buf now)
            (rw seen (λ j hj hk. l.1 j hj ∙ sym (holds_version.1 j hk)))
      | inr other ↦
          let now : release_cas target xs m.flags ≡ returned code buf = rw other at e in cc
    ]
advance-Matches size m wait (write_cas timestamp contents flags) code buf version old l held before
      e =
    attempt_claim-Matches m wait timestamp contents flags (claim flags) code buf _ e
advance-Matches size m wait (read_copy target k zero xs) code buf version old l held before e = cc
advance-Matches size m wait (read_copy target k (suc left) xs) code buf version old l held before
      e =
    cc
advance-Matches size m wait (write_copy target4 timestamp contents k []) code buf version old l held
      before e =
    cc
advance-Matches size m wait (write_copy target4 timestamp contents k (x ∷ rest)) code buf version
      old l held before e =
    cc
advance-Matches size m wait (publish_check target4 timestamp contents flags) code buf version old l
      held before e =
    absurd (ground arith)
advance-Matches size m wait (publish_cas target4 timestamp contents flags) code buf version old l
      held before e =
    elim (Bool-cases (m.flags == flags)) [
      | inl same ↦
          let now : returned (pos 0) [] ≡ returned code buf = rw same at e in
          Matches-nil _ buf (sym (returned-buf now))
      | inr other ↦
          let now : publish_check target4 timestamp contents m.flags ≡ returned code buf =
            rw other at e in
          cc
    ]
advance-Matches size m wait (write_drop target4) code buf version old l held before e =
    Matches-nil _ buf (sym (returned-buf e))
advance-Matches size m wait (returned c xs) code buf version old l held before e = before code buf e
advance-Matches size m wait pc code buf version old l held before e = cc
