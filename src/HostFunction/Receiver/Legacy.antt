-- ===== src/HostFunction/Receiver/Legacy.antt =====
-- `attach_host_function` of src/host_function_receiver.c: a function that knows no user data.
use robot_ipc.Common.{
  ℕ, ◌+◌, ◌-◌, ◌≡◌, ◌≢◌, ◌∙◌, sym, inl, inr, arith, ap, refl, List, ◌∷◌, Option, some, pos,
  is_nonzero, update_self, update_ne, Bool-cases, Option-cases,
}
use robot_ipc.Posix.{Os, World, malloc}
use robot_ipc.Posix.Balance.{is_int}
use robot_ipc.HostFunction.Receiver.{
  Entry, Dispatcher, adapter, context_size, set_entry, attach_host_function_ex,
  attach_host_function,
}
use robot_ipc.HostFunction.Receiver.Attach.{attach_ex-appends}

-- A function that is attached runs at its entry with the sizes given, the entry owns its context,
-- and the other entries stay.
pub attach-appends :
    (os : Os) (p p' : Dispatcher) (name : List ℕ) (foo : List ℕ → Option (List ℕ))
    (sz_arg sz_ret j : ℕ) (h h' : World)
    → j ≢ p.cnt_func
    → attach_host_function os p name foo sz_arg sz_ret h ≡ some ((pos 0, p'), h')
    → let e = p'.entries p.cnt_func in
      (p'.cnt_func ≡ p.cnt_func + 1)
      × (e.foo ≡ adapter foo)
      × (e.owns_user_data ≡ 1)
      × (e.sz_arg ≡ sz_arg)
      × (e.sz_ret ≡ sz_ret)
      × (p'.entries j ≡ p.entries j)
unfolding attach_host_function
attach-appends os p p' name foo sz_arg sz_ret j h h' ne run =
    let ctx = os.answer h (malloc context_size) in
    let h₁ = (malloc context_size, ctx) ∷ h in
    elim (Bool-cases (is_int ctx.ret (pos 0))) [
      | inl null ↦ absurd (ground (arith, null, run))
      | inr there ↦
          elim (Option-cases
            (attach_host_function_ex os p name (adapter foo) ctx.ret sz_arg sz_ret h₁)) [
              | inl undefined ↦ absurd (ground (arith, there, undefined, run))
              | inr (((code, q), h₂), attached) ↦ elim (Bool-cases (is_nonzero code)) [
                | inl failed ↦ absurd (ground (arith, there, attached, failed, run))
                | inr done ↦
                    let zero_code : code ≡ pos 0 = ground (arith, done) in
                    let a =
                      attach_ex-appends os p q name (adapter foo) ctx.ret sz_arg sz_ret j h₁ h₂ ne
                        (rw zero_code at attached) in
                    let id = p.cnt_func in
                    let owner : ℕ → Entry = λ i. record (q.entries i) { owns_user_data = 1 } in
                    let last : q.cnt_func - 1 ≡ id = omega (arith, a.0) in
                    let final : p' ≡ set_entry q id (owner id) =
                      ground (arith, there, attached, done, run)
                      ∙ ap (λ (i : ℕ). set_entry q i (owner i)) last in
                    let entry : p'.entries id ≡ owner id =
                      ap (λ (d : Dispatcher). d.entries id) final
                      ∙ update_self q.entries id (owner id) id refl in
                    (
                      ap (λ (d : Dispatcher). d.cnt_func) final ∙ a.0,
                      ap (λ (e : Entry). e.foo) entry ∙ a.1,
                      ap (λ (e : Entry). e.owns_user_data) entry,
                      ap (λ (e : Entry). e.sz_arg) entry ∙ a.4,
                      ap (λ (e : Entry). e.sz_ret) entry ∙ a.5,
                      ap (λ (d : Dispatcher). d.entries j) final
                          ∙ update_ne q.entries id (owner id) j (λ s. ne (sym s))
                          ∙ a.6,
                    )
              ]
            ]
    ]
