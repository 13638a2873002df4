-- ===== src/HostVariable/Link/Settling.antt =====
-- What each stage of `link_host_variable` leaves behind.
use robot_ipc.Common.{
  ℕ, zero, suc, ◌≡◌, ◌⊎◌, inl, inr, refl, arith, Bool, true, false, List, [], ◌∷◌, some, ℤ, pos,
  negsuc, Bool-cases,
}
use robot_ipc.Posix.{Os, World, Call, close, shm_unlink, usleep, atomic_load, atomic_store}
use robot_ipc.Posix.Balance.{is_int, one_if}
use robot_ipc.HostVariable.Flags.{init_flags}
use robot_ipc.HostVariable.Link.{
  created_at, flags_at, timestamp_at, Linked, null, waiting, linked, link_variable_failed, settle,
  init_variable, await_created,
}
use robot_ipc.HostVariable.Link.Effects.{initial_stores, Leaves, mapped, removed, held, initial}

pub init_variable_lem :
    (os : Os) (p : ℤ) (fd : ℕ) (h : World)
    → (h' : World) × (init_variable os p h ≡ some (tt, h')) × Leaves fd 0 0 0 initial_stores h h'
unfolding init_variable
init_variable_lem os p fd h =
    let put = λ (c : Call) (w : World). let v : World = (c, os.answer w c) ∷ w in v in
    let h₁ = put (atomic_store p created_at 0) h in
    let h₂ = put (atomic_store p flags_at init_flags) h₁ in
    let h₃ = put (atomic_store p (timestamp_at 0) 0) h₂ in
    let h₄ = put (atomic_store p (timestamp_at 1) 0) h₃ in
    let h₅ = put (atomic_store p (timestamp_at 2) 0) h₄ in
    let h₆ = put (atomic_store p (timestamp_at 3) 0) h₅ in
    (
      put (atomic_store p created_at 1) h₆,
      refl,
      record {
        descriptors = omega arith;
        mappings = omega arith;
        names = omega arith;
        stores = refl;
      },
    )

pub await_created_lem :
    (os : Os) (p : ℤ) (fd polls : ℕ) (h : World)
    → (seen : Bool) × (h' : World) × (await_created os p polls h ≡ some (seen, h'))
      × Leaves fd 0 0 0 [] h h'
unfolding await_created
await_created_lem os p fd zero h = (
  false,
  h,
  refl,
  record { descriptors = omega arith; mappings = omega arith; names = omega arith; stores = refl },
)
await_created_lem os p fd (suc polls) h =
    let created = os.answer h (atomic_load p created_at) in
    let h₁ = (atomic_load p created_at, created) ∷ h in
    let h₂ = (usleep 1000, os.answer h₁ (usleep 1000)) ∷ h₁ in
    elim (Bool-cases (is_int created.ret (pos 0))) [
      | inl unset ↦
          let (seen, h', run, same) = await_created_lem os p fd polls h₂ in
          (
            seen,
            h',
            ground (arith, unset, run),
            record {
              descriptors = omega (arith, same.descriptors);
              mappings = omega (arith, same.mappings);
              names = omega (arith, same.names);
              stores = same.stores;
            },
          )
      | inr set ↦ (
        true,
        h₁,
        ground (arith, set),
        record {
          descriptors = omega arith;
          mappings = omega arith;
          names = omega arith;
          stores = refl;
        },
      )
    ]

-- No mapping is there yet where the code goes to FAILED.
pub link_variable_failed_lem :
    (os : Os) (name : List ℕ) (size : ℕ) (d p : ℤ) (fd : ℕ) (h : World)
    → (is_int p (negsuc 0) ≡ true) ⊎ (is_int p (pos 0) ≡ true)
    → (h' : World) × (link_variable_failed os name size d p h ≡ some (null, h'))
      × Leaves fd (one_if (is_int d (pos fd))) 0 1 [] h h'
unfolding link_variable_failed
link_variable_failed_lem os name size d p fd h unmapped =
    let shut : World = (close d, os.answer h (close d)) ∷ h in
    elim (Bool-cases (is_int d (negsuc 0))) [
      | inl none_open ↦ (
        (shm_unlink name, os.answer h (shm_unlink name)) ∷ h,
        ground (arith, none_open, unmapped),
        record {
          descriptors = ground (arith, none_open);
          mappings = omega arith;
          names = omega arith;
          stores = refl;
        },
      )
      | inr open_now ↦ (
        (shm_unlink name, os.answer shut (shm_unlink name)) ∷ shut,
        ground (arith, open_now, unmapped),
        record {
          descriptors = omega arith;
          mappings = omega arith;
          names = omega arith;
          stores = refl;
        },
      )
    ]

pub settle_lem :
    (os : Os) (polls : ℕ) (d p : ℤ) (is_create : Bool) (fd : ℕ) (h : World)
    → (result : Linked) × (h' : World) × (settle os polls d p is_create h ≡ some (result, h'))
      × Leaves fd (held fd d result) 0 0 (initial is_create result) h h'
      × (mapped result ≡ 1)
      × (removed result ≡ 0)
unfolding settle
settle_lem os polls d p true fd h =
    let (h₁, run, made) = init_variable_lem os p fd h in
    (
      linked p,
      (close d, os.answer h₁ (close d)) ∷ h₁,
      ground (arith, run),
      record {
        descriptors = omega (arith, made.descriptors);
        mappings = omega (arith, made.mappings);
        names = omega (arith, made.names);
        stores = made.stores;
      },
      refl,
      refl,
    )
settle_lem os polls d p false fd h =
    let (seen, h₁, run, same) = await_created_lem os p fd polls h in
    elim (Bool-cases seen) [
      | inl now ↦ (
        linked p,
        (close d, os.answer h₁ (close d)) ∷ h₁,
        ground (arith, run, now),
        record {
          descriptors = omega (arith, same.descriptors);
          mappings = omega (arith, same.mappings);
          names = omega (arith, same.names);
          stores = same.stores;
        },
        refl,
        refl,
      )
      | inr later ↦ (
        waiting,
        h₁,
        ground (arith, run, later),
        record {
          descriptors = omega (arith, same.descriptors);
          mappings = omega (arith, same.mappings);
          names = omega (arith, same.names);
          stores = same.stores;
        },
        refl,
        refl,
      )
    ]
