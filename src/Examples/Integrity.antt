-- ===== src/Examples/Integrity.antt =====
-- examples/host_variable_integrity_check: writers publish packs of words with a checksum, and a
-- reader checks each pack that it reads.
pub mod Checked
use Prim.Native.Nat.{bit_xor}
use robot_ipc.Common.{
  ℕ, zero, suc, ◌+◌, ◌*◌, List, [], ◌∷◌, ◌++◌, Option, none, some, ℤ, pos, negsuc, is_nonzero, ◌==◌,
  if◌then◌else◌, take, drop,
}
use robot_ipc.Common.Bytes.{ByteOrder}

-- `struct data_pack`.
pub record DataPack : Type 0 where
  pub words : List ℕ
  pub chksum : ℕ

-- The loop of `thread_main` over what `rand` gives.
abbrev pub fill : (rands : List ℕ) → DataPack → DataPack
fill [] p = p
fill (r ∷ rands) p = fill rands (record { words = p.words ++ r ∷ []; chksum = bit_xor p.chksum r })

abbrev pub construct : (rands : List ℕ) → DataPack
construct rands = fill rands (record { words = []; chksum = 0 })

-- `sizeof(struct data_pack)` with an array of `n` words.
abbrev pub pack_size : (n : ℕ) → ℕ
pack_size n = 4 * n + 4

-- The bytes of a pack, and the pack that is made of bytes.
module _ (order : ByteOrder) where
  abbrev pub words_to_bytes : List ℕ → List ℕ
  words_to_bytes [] = []
  words_to_bytes (w ∷ ws) = order.to_bytes 4 w ++ words_to_bytes ws

  abbrev pub pack_to_bytes : DataPack → List ℕ
  pack_to_bytes p = words_to_bytes p.words ++ order.to_bytes 4 p.chksum

  abbrev pub words_from_bytes : (n : ℕ) → List ℕ → List ℕ
  words_from_bytes zero bytes = []
  words_from_bytes (suc n) bytes =
      order.from_bytes (take 4 bytes) ∷ words_from_bytes n (drop 4 bytes)

  abbrev pub pack_from_bytes : (n : ℕ) → List ℕ → DataPack
  pack_from_bytes n bytes = record {
    words = words_from_bytes n bytes;
    chksum = order.from_bytes (take 4 (drop (4 * n) bytes));
  }

-- The loop of the reader: the checksum with every word folded into it.
abbrev pub residue : (chksum : ℕ) → List ℕ → ℕ
residue chksum [] = chksum
residue chksum (w ∷ ws) = residue (bit_xor chksum w) ws

-- One round of the reader's loop on what `read_host_variable` returned and left in `data`: the
-- value that `main` returns, if it returns.
unfoldable pub reader_round : ByteOrder → (n : ℕ) → (ret : ℤ) (bytes : List ℕ) → Option ℤ
reader_round order n ret bytes =
    let p = pack_from_bytes order n bytes in
    if is_nonzero ret
    then some (negsuc 0)
    else if residue p.chksum p.words == 0
    then none
    else some (negsuc 1)
