-- ===== src/HostVariable/Alone/Reading.antt =====
-- A read that nobody interrupts.
use robot_ipc.Common.{
  ℕ, zero, suc, ◌+◌, ◌*◌, ◌<◌, ◌≡◌, refl, sym, ◌∙◌, ap, arith, List, [], ◌∷◌, ◌++◌, pos, ==_iff,
  update, update_self, update_ne, length, ℕ_discrete,
}
use mathlib.Core.List.{append_assoc, append-nil}
use robot_ipc.Word.{u64_mod, nibble, nibble-lt}
use robot_ipc.HostVariable.Flags.{release_read}
use robot_ipc.HostVariable.Flags.Readers.{acquire_read_lem, release_read-Stores}
use robot_ipc.HostVariable.Process.{
  Shm, to, begin_read, read_load, read_copy, release_load, returned, advance,
}
use robot_ipc.HostVariable.Alone.{run, run-add}
use robot_ipc.HostVariable.Alone.Writing.{stored}

-- The `left` bytes from place `k` on.
abbrev pub taken : (bytes : ℕ → ℕ) (base k left : ℕ) → List ℕ
taken bytes base k zero = []
taken bytes base k (suc left) = bytes (base + k) ∷ taken bytes base (k + 1) left

pub length-taken : (bytes : ℕ → ℕ) (base k left : ℕ) → length (taken bytes base k left) ≡ left
length-taken bytes base k zero = refl
length-taken bytes base k (suc left) = omega (arith, length-taken bytes base (k + 1) left)

pub taken-add :
    (bytes : ℕ → ℕ) (base k left more : ℕ)
    → taken bytes base k (left + more) ≡ taken bytes base k left ++ taken bytes base (k + left) more
taken-add bytes base k zero more =
    let none_left : 0 + more ≡ more = omega arith in
    let here : k + 0 ≡ k = omega arith in rw (none_left, here) refl
taken-add bytes base k (suc left) more =
    let one : suc left + more ≡ suc (left + more) = omega arith in
    let there : k + suc left ≡ k + 1 + left = omega arith in
    rw (one, there)
      (ap (λ (xs : List ℕ). bytes (base + k) ∷ xs) (taken-add bytes base (k + 1) left more))

stored-below :
    (bytes : ℕ → ℕ) (base k j : ℕ) (xs : List ℕ)
    → j < k
    → stored bytes base k xs (base + j) ≡ bytes (base + j)
stored-below bytes base k j [] below = refl
stored-below bytes base k j (x ∷ xs) below =
    stored-below (update bytes (base + k) x) base (k + 1) j xs (omega arith)
    ∙ update_ne bytes (base + k) x (base + j) (λ e. omega arith)

-- What is stored is what is taken from the same place.
pub taken-stored :
    (bytes : ℕ → ℕ) (base k : ℕ) (xs : List ℕ)
    → taken (stored bytes base k xs) base k (length xs) ≡ xs
taken-stored bytes base k [] = refl
taken-stored bytes base k (x ∷ xs) =
    let here : stored (update bytes (base + k) x) base (k + 1) xs (base + k) ≡ x =
      stored-below (update bytes (base + k) x) base (k + 1) k xs (omega arith)
      ∙ update_self bytes (base + k) x (base + k) refl in
    rw here
      (ap (λ (ys : List ℕ). x ∷ ys) (taken-stored (update bytes (base + k) x) base (k + 1) xs))

read_copy_lem :
    (size wait target k left : ℕ) (buf : List ℕ) (m : Shm)
    → run size (suc left) (to m wait (read_copy target k left buf))
      ≡ to m 0 (release_load target (buf ++ taken m.bytes (target * size) k left))
unfolding run advance
read_copy_lem size wait target k zero buf m =
    ap (λ (xs : List ℕ). to m 0 (release_load target xs)) (sym (append-nil buf))
read_copy_lem size wait target k (suc left) buf m =
    read_copy_lem size wait target (k + 1) left (buf ++ m.bytes (target * size + k) ∷ []) m
    ∙ ap (λ (xs : List ℕ). to m 0 (release_load target xs))
        (append_assoc buf (m.bytes (target * size + k) ∷ [])
          (taken m.bytes (target * size) (k + 1) left))

module _ (size op_size : ℕ) (m : Shm) (fits : m.flags < u64_mod)
    (room : nibble m.flags (nibble m.flags 15) < 14) where
  abbrev pub b : ℕ
  b = nibble m.flags 15

  abbrev pub counted : ℕ
  counted = (acquire_read_lem m.flags fits room).0

  abbrev pub after_read : Shm
  after_read = record m { flags = release_read b counted }

  acquires :
      run size 2 (to m 1 (read_load op_size))
      ≡ to (record m { flags = counted }) 1 (read_copy b 0 op_size [])
  unfolding run advance
  acquires = rw ((acquire_read_lem m.flags fits room).1, (==_iff m.flags m.flags).1 refl) refl

  releases :
      (buf : List ℕ)
      → run size 2 (to (record m { flags = counted }) 0 (release_load b buf))
        ≡ to after_read 0 (returned (pos 0) buf)
  unfolding run advance
  releases buf = rw ((==_iff counted counted).1 refl) refl

  -- The flags have the fields that they had before.
  pub read-flags :
      (after_read.flags < u64_mod)
      × ((i : ℕ) → i < 16 → nibble after_read.flags i ≡ nibble m.flags i)
  read-flags =
      let up = (acquire_read_lem m.flags fits room).2 in
      let down =
        release_read-Stores counted b up.fits (nibble-lt m.flags 15) (omega (arith, up.stored)) in
      (
        down.fits,
        λ i hi. elim (ℕ_discrete b i) [
          | yes same ↦ rw (sym same) (omega (arith, down.stored, up.stored))
          | no other ↦ down.others i hi other ∙ up.others i hi other
        ],
      )

  pub read_runs :
      run size (2 + (suc op_size + 2)) (record { mem = m; process = begin_read op_size })
      ≡ to after_read 0 (returned (pos 0) (taken m.bytes (b * size) 0 op_size))
  read_runs =
      run-add size 2 (suc op_size + 2) (to m 1 (read_load op_size))
      ∙ ap (run size (suc op_size + 2)) acquires
      ∙ run-add size (suc op_size) 2
          (to (record m { flags = counted }) 1 (read_copy b 0 op_size []))
      ∙ ap (run size 2) (read_copy_lem size 1 b 0 op_size [] (record m { flags = counted }))
      ∙ releases (taken m.bytes (b * size) 0 op_size)
