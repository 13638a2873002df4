-- ===== src/Examples/Integrity/Checked.antt =====
-- Whatever the interleaving of the writers, the reader's check holds.
use Prim.Native.Nat.{bit_xor}
use robot_ipc.Common.{
  ℕ, ◌*◌, ◌^◌, ◌<◌, ◌≡◌, ◌⊎◌, inl, inr, refl, sym, ◌∙◌, ap, ap₂, arith, List, [], ◌∷◌, ◌++◌, none,
  pos, length, length-append, take, drop, take-append, drop-append, take-length,
}
use mathlib.Core.List.{append_assoc, append-nil}
use robot_ipc.Common.Bytes.{ByteOrder, IsByteOrder}
use robot_ipc.Word.Xor.{xor-zero, xor_self, xor_assoc, xor-lt}
use robot_ipc.HostVariable.Process.{returned}
use robot_ipc.HostVariable.System.{System, Reach}
use robot_ipc.HostVariable.Whole.{IsWhole, no_torn_read}
use robot_ipc.Examples.Integrity.{
  DataPack, fill, construct, pack_size, words_to_bytes, pack_to_bytes, words_from_bytes,
  pack_from_bytes, residue, reader_round,
}

residue-xor : (a b : ℕ) (ws : List ℕ) → residue (bit_xor a b) ws ≡ bit_xor a (residue b ws)
residue-xor a b [] = refl
residue-xor a b (w ∷ ws) =
    ap (λ (c : ℕ). residue c ws) (xor_assoc a b w) ∙ residue-xor a (bit_xor b w) ws

-- A checksum over its own words leaves nothing.
residue_self : (ws : List ℕ) → residue (residue 0 ws) ws ≡ 0
residue_self ws =
    let c = residue 0 ws in
    ap (λ (x : ℕ). residue x ws) (sym (xor-zero c)) ∙ residue-xor c 0 ws ∙ xor_self c

fill_lem :
    (rands : List ℕ) (p : DataPack)
    → fill rands p ≡ record { words = p.words ++ rands; chksum = residue p.chksum rands }
fill_lem [] p = ap (λ (xs : List ℕ). record p { words = xs }) (sym (append-nil p.words))
fill_lem (r ∷ rands) p =
    fill_lem rands (record { words = p.words ++ r ∷ []; chksum = bit_xor p.chksum r })
    ∙ ap (λ (xs : List ℕ). record { words = xs; chksum = residue (bit_xor p.chksum r) rands })
        (append_assoc p.words (r ∷ []) rands)

abbrev pub AreWords : List ℕ → Type 0
AreWords [] = Unit
AreWords (w ∷ ws) = (w < 2 ^ 32) × AreWords ws

residue-lt : (c : ℕ) (ws : List ℕ) → c < 2 ^ 32 → AreWords ws → residue c ws < 2 ^ 32
residue-lt c [] hc h = hc
residue-lt c (w ∷ ws) hc h = residue-lt (bit_xor c w) ws (xor-lt 32 c w hc h.0) h.1

module _ (order : ByteOrder) (lawful : IsByteOrder order) where
  length-words_to_bytes : (ws : List ℕ) → length (words_to_bytes order ws) ≡ 4 * length ws
  length-words_to_bytes [] = refl
  length-words_to_bytes (w ∷ ws) = omega (
    arith,
    length-append (order.to_bytes 4 w) (words_to_bytes order ws),
    lawful.sized 4 w,
    length-words_to_bytes ws,
  )

  words_round_trip :
      (ws rest : List ℕ)
      → AreWords ws
      → words_from_bytes order (length ws) (words_to_bytes order ws ++ rest) ≡ ws
  words_round_trip [] rest h = refl
  words_round_trip (w ∷ ws) rest h =
      let front = order.to_bytes 4 w in
      let back = words_to_bytes order ws ++ rest in
      let joined = append_assoc front (words_to_bytes order ws) rest in
      let four = sym (lawful.sized 4 w) in
      ap₂ (λ (x : ℕ) (xs : List ℕ). x ∷ xs)
        (ap order.from_bytes (ap (take 4) joined ∙ take-append 4 front back four)
          ∙ lawful.read_back 4 w (omega (arith, h.0)))
        (ap (words_from_bytes order (length ws))
            (ap (drop 4) joined ∙ drop-append 4 front back four)
          ∙ words_round_trip ws rest h.1)

  pack_round_trip :
      (p : DataPack)
      → AreWords p.words
      → p.chksum < 2 ^ 32
      → pack_from_bytes order (length p.words) (pack_to_bytes order p) ≡ p
  pack_round_trip p words sum =
      let front = words_to_bytes order p.words in
      let last = order.to_bytes 4 p.chksum in
      ap₂ (λ (ws : List ℕ) (c : ℕ). record { words = ws; chksum = c })
        (words_round_trip p.words last words)
        (ap order.from_bytes (
            ap (take 4)
              (drop-append (4 * length p.words) front last (sym (length-words_to_bytes p.words)))
            ∙ take-length 4 last (sym (lawful.sized 4 p.chksum)))
          ∙ lawful.read_back 4 p.chksum (omega (arith, sum)))

  length-pack_to_bytes :
      (p : DataPack) → length (pack_to_bytes order p) ≡ pack_size (length p.words)
  length-pack_to_bytes p = omega (
    arith,
    length-append (words_to_bytes order p.words) (order.to_bytes 4 p.chksum),
    length-words_to_bytes p.words,
    lawful.sized 4 p.chksum,
  )

-- The bytes of a pack of `n` words that the writer's loop has made.
abbrev pub IsPack : ByteOrder → (n : ℕ) → List ℕ → Type 0
IsPack order n bytes =
    (rands : List ℕ) × (length rands ≡ n)
    × AreWords rands
    × (bytes ≡ pack_to_bytes order (construct rands))

reader-IsPack :
    (order : ByteOrder) (n : ℕ) (bytes : List ℕ)
    → IsByteOrder order
    → IsPack order n bytes
    → reader_round order n (pos 0) bytes ≡ none
unfolding reader_round
reader-IsPack order n bytes lawful (rands, count, words, same) =
    let p : DataPack = record { words = rands; chksum = residue 0 rands } in
    let made : bytes ≡ pack_to_bytes order p =
      same ∙ ap (pack_to_bytes order) (fill_lem rands (record { words = []; chksum = 0 })) in
    let back : pack_from_bytes order n bytes ≡ p =
      ap₂ (pack_from_bytes order) (sym count) made
      ∙ pack_round_trip order lawful p words (residue-lt 0 rands (omega arith) words) in
    let zero_left = ap (λ (q : DataPack). residue q.chksum q.words) back ∙ residue_self rands in
    ground (arith, zero_left)

-- Where every call moves a whole pack and every written value is a pack of `n` words that the
-- writer's loop has made of words of 32 bits, a read that has returned 0, in whatever interleaving of
-- the processes, passes the reader's check, so that the reader goes on; unless it was a write that
-- returned, or nothing was published before.
pub integrity_holds :
    {processes : ℕ} {bytes : ℕ → ℕ} {s : System} (n : ℕ) (order : ByteOrder)
    → IsByteOrder order
    → (r : Reach processes (pack_size n) bytes s) → IsWhole (IsPack order n) r
    → (i : ℕ) → i < processes
    → (buf : List ℕ) → (s.process i).pc ≡ returned (pos 0) buf
    → (buf ≡ []) ⊎ ((s.snapshot i ≡ []) ⊎ (reader_round order n (pos 0) buf ≡ none))
integrity_holds n order lawful r whole i hi buf e =
    elim (no_torn_read (IsPack order n) r whole i hi (pos 0) buf e) [
      | inl nothing ↦ inl nothing
      | inr (inl fresh) ↦ inr (inl fresh)
      | inr (inr (same, member, pack)) ↦ inr (inr (reader-IsPack order n buf lawful pack))
    ]
