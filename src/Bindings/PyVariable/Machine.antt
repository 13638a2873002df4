-- ===== src/Bindings/PyVariable/Machine.antt =====
-- `PyHostVariable` of src/python_bindings.cpp on the machine of src/host_variable.c, for a process
-- that nobody interrupts.
use robot_ipc.Common.{
  ℕ, ◌+◌, pos, ◌-◌, ◌<◌, ◌≤◌, ◌≡◌, ◌⊎◌, inl, inr, refl, arith, List, ◌++◌, some, ltb, ◌==◌,
  if◌then◌else◌, length, take, Bool-cases, take-append, length-append, length-take, drop,
}
use robot_ipc.Bindings.{VariableOps, payload_exceeds_size, payload_shorter, ok, raised}
use robot_ipc.Bindings.Solo.{Session, solo, IsReady, solo-VariableLaws}
use robot_ipc.Bindings.PyVariable.{PyHostVariable, write, read}

write_lem :
    {S : Type 0} (ops : VariableOps S) (v : PyHostVariable) (payload : List ℕ) (op_size n : ℕ)
    (s s' : S)
    → (if op_size == 0 then length payload else op_size) ≡ n
    → n ≤ v.size
    → n ≤ length payload
    → ops.write payload v.size n s ≡ some (pos 0, s')
    → write ops v payload op_size s ≡ some (ok tt, s')
unfolding write
write_lem ops v payload op_size n s s' size fits whole wrote =
    rw size (ground (arith, fits, whole, wrote))

read_lem :
    {S : Type 0} (ops : VariableOps S) (v : PyHostVariable) (front rest : List ℕ) (s s' : S)
    → length front + length rest ≡ v.size
    → ops.read v.buffer v.size v.size s ≡ some ((pos 0, front ++ rest ++ drop v.size v.buffer), s')
    → (v' : PyHostVariable) × (read ops v 0 s ≡ some ((ok (front ++ rest), v'), s'))
unfolding read
read_lem ops v front rest s s' sized found =
    let bytes = front ++ rest ++ drop v.size v.buffer in
    let whole : take v.size bytes ≡ front ++ rest =
      take-append v.size (front ++ rest) (drop v.size v.buffer)
        (omega (arith, length-append front rest, sized)) in
    (record v { buffer = bytes }, ground (arith, found, whole))

-- On a variable that nobody is using, whose last timestamp is not after the clock, which moves on: a
-- write from Python, with 0 for the size of the payload, raises an exception where it asks for more
-- bytes than the variable has, or than the payload has, and then changes nothing. Otherwise it
-- succeeds, and a read of the whole variable after it succeeds and gives as many bytes as the
-- variable has, of which the first ones are those that were written.
pub py_write_then_read :
    (tick : ℕ → ℕ)
    → ((t : ℕ) → t < tick t)
    → (v : PyHostVariable) (payload : List ℕ) (op_size : ℕ) (s : Session) → IsReady s
    → let n = if op_size == 0 then length payload else op_size in
      ((v.size < n)
        × (write (solo tick) v payload op_size s ≡ some (raised payload_exceeds_size, s)))
      ⊎ (((length payload < n)
            × (write (solo tick) v payload op_size s ≡ some (raised payload_shorter, s)))
          ⊎ ((n ≤ v.size)
              × (n ≤ length payload)
              × (s' s'' : Session) × (v' : PyHostVariable) × (rest : List ℕ) × (write
                    (solo tick)
                    v
                    payload
                    op_size
                    s
                  ≡ some (ok tt, s'))
              × (read (solo tick) v 0 s' ≡ some ((ok (take n payload ++ rest), v'), s''))
              × (length rest ≡ v.size - n)
              × IsReady s''))
unfolding write
py_write_then_read tick moves v payload op_size s ready =
    let n = if op_size == 0 then length payload else op_size in
    elim (Bool-cases (ltb v.size n)) [
      | inl large ↦ inl (ground (arith, large), rw large refl)
      | inr fits ↦ elim (Bool-cases (ltb (length payload) n)) [
        | inl short ↦ inr (inl (ground (arith, short), rw (fits, short) refl))
        | inr whole ↦
            let le : n ≤ v.size = ground (arith, fits) in
            let enough : n ≤ length payload = ground (arith, whole) in
            let (s', s'', rest, sized, wrote, found, again) =
              (solo-VariableLaws tick moves v.size).write-read_more s payload v.buffer n v.size
                ready le (omega arith) enough in
            let (v', got) =
              read_lem (solo tick) v (take n payload) rest s' s''
                (omega (arith, length-take n payload enough, sized, le)) found in
            inr (
              inr (
                le,
                enough,
                s',
                s'',
                v',
                rest,
                write_lem (solo tick) v payload op_size n s s' refl le enough wrote,
                got,
                sized,
                again,
              ))
      ]
    ]
