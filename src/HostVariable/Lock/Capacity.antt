-- ===== src/HostVariable/Lock/Capacity.antt =====
-- What is left for a process that holds nothing, where few processes share the word.
use robot_ipc.Common.{
  ℕ, ◌<◌, ◌≤◌, ◌≡◌, ◌≢◌, inl, inr, refl, sym, ◌∙◌, arith, none, total-lt, total-ne-zero, ℕ_discrete,
}
use robot_ipc.Word.{nibble}
use robot_ipc.HostVariable.Flags.{shm_buffer_cnt, acquire_read, claim}
use robot_ipc.HostVariable.Flags.Readers.{acquire_read_lem}
use robot_ipc.HostVariable.Flags.Writers.{claim_cases}
use robot_ipc.HostVariable.Lock.{Hold, free, shared, exclusive, weight, IsLocked}
use robot_ipc.HostVariable.Lock.Exclusion.{exclusive-ne-target}

module _ {n w : ℕ} {holds : ℕ → Hold} (locked : IsLocked n w holds) (i : ℕ) (hi : i < n)
    (rests : holds i ≡ free) where
  weight_small : (j : ℕ) → j < n → weight (nibble w 15) (holds j) ≤ 1
  weight_small j hj = weight_of (holds j) refl
    where
      weight_of : (h : Hold) → holds j ≡ h → weight (nibble w 15) h ≤ 1
      weight_of free e = omega arith
      weight_of (shared c) e = ground arith
      weight_of (exclusive c) e = ground (arith, exclusive-ne-target locked c j hj e)

  -- A process that holds nothing can acquire the target.
  pub acquire_read-ne-none : n ≤ 14 → acquire_read w ≢ none
  acquire_read-ne-none few e =
      let count = locked.counted (nibble w 15) locked.target in
      let below = total-lt (weight (nibble w 15)) n holds weight_small i hi (rw rests refl) in
      let (w', found, s) = acquire_read_lem w locked.fits (omega (arith, count, below)) in
      cc (found, e)

  holder :
      (b : ℕ) → b < shm_buffer_cnt → nibble w b ≢ 0 → (j : ℕ) × (j < n) × (weight b (holds j) ≢ 0)
  holder b hb held = total-ne-zero (weight b) n holds (λ e. held (locked.counted b hb ∙ e))

  -- No process holds two buffers.
  one_buffer : (b c : ℕ) (h : Hold) → b ≢ c → weight b h ≢ 0 → weight c h ≡ 0
  one_buffer b c free ne counts = refl
  one_buffer b c (shared d) ne counts = ground arith
  one_buffer b c (exclusive d) ne counts = ground arith

  apart : (b c j k : ℕ) → b ≢ c → weight b (holds j) ≢ 0 → weight c (holds k) ≢ 0 → j ≢ k
  apart b c j k ne counts counts' same =
      counts' (rw (sym same) (one_buffer b c (holds j) ne counts))

  not_idle : (b j : ℕ) → weight b (holds j) ≢ 0 → j ≢ i
  not_idle b j counts same = counts (rw (same, rests) refl)

  -- Three processes cannot hold three buffers while one of them holds nothing.
  three_held :
      n ≤ 3
      → (a b c : ℕ) → a < shm_buffer_cnt
      → b < shm_buffer_cnt
      → c < shm_buffer_cnt
      → a ≢ b
      → a ≢ c
      → b ≢ c
      → nibble w a ≢ 0
      → nibble w b ≢ 0
      → nibble w c ≢ 0
      → ⊥
  three_held few a b c ha hb hc ab ac bc held_a held_b held_c =
      let (j, hj, counts_j) = holder a ha held_a in
      let (k, hk, counts_k) = holder b hb held_b in
      let (l, hl, counts_l) = holder c hc held_c in
      let jk = apart a b j k ab counts_j counts_k in
      let jl = apart a c j l ac counts_j counts_l in
      let kl = apart b c k l bc counts_k counts_l in
      let ji = not_idle a j counts_j in
      let ki = not_idle b k counts_k in
      let li = not_idle c l counts_l in omega (arith, jk, jl, kl, ji, ki, li)

  held_all : n ≤ 3 → ((b : ℕ) → b < shm_buffer_cnt → nibble w 15 ≢ b → nibble w b ≢ 0) → ⊥
  held_all few held =
      let t = nibble w 15 in
      let ht : t < 4 = locked.target in
      elim (ℕ_discrete t 0) [
        | yes e ↦
            three 1 2 3 (omega arith) (omega arith) (omega arith) (omega arith) (omega arith)
              (omega arith)
        | no n0 ↦ elim (ℕ_discrete t 1) [
          | yes e ↦
              three 0 2 3 (omega arith) (omega arith) (omega arith) (omega arith) (omega arith)
                (omega arith)
          | no n1 ↦ elim (ℕ_discrete t 2) [
            | yes e ↦
                three 0 1 3 (omega arith) (omega arith) (omega arith) (omega arith) (omega arith)
                  (omega arith)
            | no n2 ↦ three 0 1 2 (omega arith) (omega arith) (omega arith) n0 n1 n2
          ]
        ]
      ]
    where
      three :
          (a b c : ℕ)
          → a < b
          → b < c
          → c < 4
          → nibble w 15 ≢ a
          → nibble w 15 ≢ b
          → nibble w 15 ≢ c
          → ⊥
      three a b c ab bc hc ta tb tc =
          three_held few a b c (omega arith) (omega arith) hc (λ e. omega arith) (λ e. omega arith)
            (λ e. omega arith) (held a (omega arith) ta) (held b (omega arith) tb) (held c hc tc)

  -- A process that holds nothing finds a free buffer.
  pub claim-ne-none : n ≤ 3 → claim w ≢ none
  claim-ne-none few e = elim (claim_cases w locked.fits (omega (arith, locked.target))) [
    | inr (b, w', c) ↦ cc (c.returns, e)
    | inl full ↦ held_all few (λ b hb ne clear. full.1 b (omega arith) (clear, ne))
  ]
