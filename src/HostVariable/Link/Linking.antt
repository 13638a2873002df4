-- ===== src/HostVariable/Link/Linking.antt =====
-- What `link_host_variable` leaves behind as a whole.
use robot_ipc.Common.{
  ℕ, ◌+◌, ◌≡◌, inl, inr, refl, arith, Bool, true, false, not, List, ◌∷◌, ◌++◌, some, ℤ, pos, negsuc,
  is_negative, if◌then◌else◌, Bool-cases,
}
use robot_ipc.Posix.{Os, World, shm_create, shm_open, ftruncate, mmap}
use robot_ipc.Posix.Balance.{is_int, one_if, opens, closes}
use robot_ipc.HostVariable.Link.{
  full_size, Linked, null, waiting, linked, map_variable, open_variable,
}
use robot_ipc.HostVariable.Link.Effects.{
  stored, maps, unmaps, removes, Leaves, mapped, removed, held, initial,
}
use robot_ipc.HostVariable.Link.Settling.{settle_lem, link_variable_failed_lem}

map_variable_lem :
    (os : Os) (name : List ℕ) (polls size : ℕ) (d : ℤ) (is_create : Bool) (fd : ℕ) (h : World)
    → (result : Linked) × (h' : World) × (map_variable os name polls size d is_create h
        ≡ some (result, h'))
      × Leaves fd
          (held fd d result)
          (mapped result)
          (removed result)
          (initial is_create result)
          h
          h'
unfolding map_variable
map_variable_lem os name polls size d is_create fd h =
    let sized = os.answer h (ftruncate d (full_size size)) in
    let h₁ = (ftruncate d (full_size size), sized) ∷ h in
    let p = os.answer h₁ (mmap (full_size size) d) in
    let h₂ = (mmap (full_size size) d, p) ∷ h₁ in
    elim (Bool-cases (is_int sized.ret (negsuc 0))) [
      | inl refused ↦
          let (h', run, left) = link_variable_failed_lem os name size d (pos 0) fd h₁ (inr refl) in
          (
            null,
            h',
            ground (arith, refused, run),
            record {
              descriptors = omega (arith, left.descriptors);
              mappings = omega (arith, left.mappings);
              names = omega (arith, left.names);
              stores = left.stores;
            },
          )
      | inr fits ↦ elim (Bool-cases (is_int p.ret (negsuc 0))) [
        | inl refused ↦
            let (h', run, left) =
              link_variable_failed_lem os name size d p.ret fd h₂ (inl refused) in
            (
              null,
              h',
              ground (arith, fits, refused, run),
              record {
                descriptors = omega (arith, left.descriptors);
                mappings = ground (arith, refused, left.mappings);
                names = omega (arith, left.names);
                stores = left.stores;
              },
            )
        | inr works ↦
            let (result, h', run, left, one, none) = settle_lem os polls d p.ret is_create fd h₂ in
            (
              result,
              h',
              ground (arith, fits, works, run),
              record {
                descriptors = omega (arith, left.descriptors);
                mappings = ground (arith, works, one, left.mappings);
                names = omega (arith, none, left.names);
                stores = left.stores;
              },
            )
      ]
    ]

-- A descriptor that stays open: that of a process that still waits.
abbrev pub open_still : ℕ → ℤ → Linked → ℕ
open_still fd d null = 0
open_still fd d waiting = one_if (is_int d (pos fd))
open_still fd d (linked address) = 0

abbrev pub chosen_fd : Os → List ℕ → World → ℤ
chosen_fd os name h =
    let made = os.answer h (shm_create name) in
    if is_negative made.ret
    then (os.answer ((shm_create name, made) ∷ h) (shm_open name)).ret
    else made.ret

open_still-held :
    (fd : ℕ) (d : ℤ) (result : Linked)
    → one_if (is_int d (pos fd)) ≡ held fd d result + open_still fd d result
open_still-held fd d null = omega arith
open_still-held fd d waiting = omega arith
open_still-held fd d (linked address) = omega arith

-- What a link that is begun at `h` and ends at `h'` with `result` leaves.
pub record Linkage (os : Os) (name : List ℕ) (fd : ℕ) (result : Linked) (h h' : World)
    : Type 0 where
  pub descriptors :
      opens fd h' + closes fd h
      ≡ opens fd h + closes fd h' + open_still fd (chosen_fd os name h) result
  pub mappings : maps h' + unmaps h ≡ maps h + unmaps h' + mapped result
  pub names : removes h' ≡ removes h + removed result
  pub stores :
      stored h' ≡ initial (not (is_negative (os.answer h (shm_create name)).ret)) result ++ stored h

pub open_variable-Linkage :
    (os : Os) (name : List ℕ) (polls size fd : ℕ) (h : World)
    → (result : Linked) × (h' : World) × (open_variable os name polls size h ≡ some (result, h'))
      × Linkage os name fd result h h'
unfolding open_variable
open_variable-Linkage os name polls size fd h =
    let made = os.answer h (shm_create name) in
    let h₁ = (shm_create name, made) ∷ h in
    let opened = os.answer h₁ (shm_open name) in
    let h₂ = (shm_open name, opened) ∷ h₁ in
    elim (Bool-cases (is_negative made.ret)) [
      | inr new ↦
          let (result, h', run, left) = map_variable_lem os name polls size made.ret true fd h₁ in
          (
            result,
            h',
            ground (arith, new, run),
            record {
              descriptors =
                  rw new (omega (arith, left.descriptors, open_still-held fd made.ret result));
              mappings = omega (arith, left.mappings);
              names = omega (arith, left.names);
              stores = rw new left.stores;
            },
          )
      | inl refused ↦ elim (Bool-cases made.eexist) [
        | inr other ↦
            let (h', run, left) =
              link_variable_failed_lem os name size made.ret (pos 0) fd h₁ (inr refl) in
            (
              null,
              h',
              ground (arith, refused, other, run),
              record {
                descriptors = ground (arith, refused, left.descriptors);
                mappings = omega (arith, left.mappings);
                names = omega (arith, left.names);
                stores = left.stores;
              },
            )
        | inl exists ↦ elim (Bool-cases (is_negative opened.ret)) [
          | inl failed ↦
              let (h', run, left) =
                link_variable_failed_lem os name size opened.ret (pos 0) fd h₂ (inr refl) in
              (
                null,
                h',
                ground (arith, refused, exists, failed, run),
                record {
                  descriptors = ground (arith, refused, failed, left.descriptors);
                  mappings = omega (arith, left.mappings);
                  names = omega (arith, left.names);
                  stores = left.stores;
                },
              )
          | inr joined ↦
              let (result, h', run, left) =
                map_variable_lem os name polls size opened.ret false fd h₂ in
              (
                result,
                h',
                ground (arith, refused, exists, joined, run),
                record {
                  descriptors = ground (
                    arith,
                    refused,
                    exists,
                    joined,
                    left.descriptors,
                    open_still-held fd opened.ret result,
                  );
                  mappings = omega (arith, left.mappings);
                  names = omega (arith, left.names);
                  stores = rw refused left.stores;
                },
              )
        ]
      ]
    ]
