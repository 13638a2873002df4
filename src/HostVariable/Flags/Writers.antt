-- ===== src/HostVariable/Flags/Writers.antt =====
-- The flags in `write_host_variable`: a free buffer is found and marked, and then published as the
-- target or given back.
use robot_ipc.Common.{
  ℕ, ◌*◌, ◌<◌, ◌≡◌, ◌≢◌, refl, ◌∙◌, arith, bit_and, bit_or, none, some, ◌⊎◌, inl, inr, ◌==◌, ==_iff,
  true, each_below, each_below_sound, ℕ_discrete,
}
use robot_ipc.Word.{
  u64_mod, ◌<<<◌, ◌>>>◌, nibble, nibble-bit_and_clear, nibble-bit_and_full, nibble-bit_or_full,
  nibble-bit_or_clear, nibble-clear_bit_or, nibble-shl_self, nibble-shl_ne, nibble-cleared_self,
  nibble-cleared_ne, bit_or-lt_u64, bit_and-lt_u64, bit_not-lt, shl-lt, nibble-zero_word,
}
use robot_ipc.Word.Scan.{ctz, ctz-IsFirst}
use robot_ipc.HostVariable.Flags.{free_mask, claim, publish, drop_claim}
use robot_ipc.HostVariable.Flags.Target.{Stores}
use robot_ipc.HostVariable.Flags.FreeMask.{
  free_mask-free, free_mask-held, free_mask-target, free_mask_top, free_mask-lt, free_mask_small,
}

low_fields_table : each_below (λ i. nibble 0x0FFFFFFFFFFFFFFF i == 15) 15 ≡ true
unfolding each_below nibble
low_fields_table = refl

low_fields : (i : ℕ) → i < 15 → nibble 0x0FFFFFFFFFFFFFFF i ≡ 15
low_fields i h = (==_iff _ 15).0 (each_below_sound _ 15 low_fields_table i h)

-- A buffer that `claim` may take.
abbrev pub IsFree : ℕ → ℕ → Type 0
IsFree w b = (nibble w b ≡ 0) × (nibble w 15 ≢ b)

-- `claim` marks a free buffer with 15, or finds that there is none.
pub record Claimed (w b w' : ℕ) : Type 0 where
  pub returns : claim w ≡ some (b * 4, w')
  pub low : b < 15
  pub free : IsFree w b
  pub marks : Stores w b 15 w'

claim_found :
    (w b : ℕ)
    → w < u64_mod
    → nibble w 15 < 15
    → b < 16
    → free_mask w ≢ 0
    → ctz (free_mask w) ≡ b * 4
    → nibble (free_mask w) b ≡ 1
    → Claimed w b (bit_or w (0xF <<< b * 4))
claim_found w b hw ht hb some_free stop found = record {
  returns = unfold claim in rw stop (ground arith);
  low = low;
  free = (
    elim (ℕ_discrete (nibble w b) 0) [
      | yes clear ↦ clear
      | no held ↦ absurd (omega (arith, free_mask-held w b hw low held))
    ],
    λ e. absurd (omega (arith, rw e at (free_mask-target w hw ht))),
  );
  marks = record {
    fits = bit_or-lt_u64 _ _ hw (shl-lt _ _);
    stored = nibble-bit_or_full w _ b (nibble-shl_self 15 b (omega arith) hb);
    others = λ i hi ne. nibble-bit_or_clear w _ i (nibble-shl_ne 15 b i (omega arith) hb ne);
  };
}
  where
    low : b < 15
    low = elim (ℕ_discrete b 15) [
      | yes top ↦ absurd (omega (arith, free_mask_top w hw, rw top at found))
      | no other ↦ omega arith
    ]

-- On a 64-bit word whose target is below 15, `claim` fails exactly where no buffer is free; otherwise
-- it takes a buffer that nobody holds and that is not the target, stores 15 for it, and changes no
-- other field.
pub claim_cases :
    (w : ℕ)
    → w < u64_mod
    → nibble w 15 < 15
    → ((claim w ≡ none) × ((b : ℕ) → b < 15 → ¬ IsFree w b)) ⊎ ((b w' : ℕ) × Claimed w b w')
claim_cases w hw ht = elim (ℕ_discrete (free_mask w) 0) [
  | yes full ↦ inl (
    unfold claim in ground arith,
    λ b hb f.
        absurd (omega (arith, nibble-zero_word b, rw full at (free_mask-free w b hw hb f.0 f.1))),
  )
  | no some_free ↦
      let (b, hb, stop, first) =
        ctz-IsFirst (free_mask w) (free_mask-lt w hw) some_free (free_mask_small w hw) in
      inr (b, _, claim_found w b hw ht hb some_free stop first.found)
]

-- A publication makes buffer `b` the target, gives it back, and changes no other count.
pub record Publishes (w b w' : ℕ) : Type 0 where
  pub fits : w' < u64_mod
  pub target : nibble w' 15 ≡ b
  pub freed : nibble w' b ≡ 0
  pub others : (i : ℕ) → i < 15 → b ≢ i → nibble w' i ≡ nibble w i

shift_two : (b : ℕ) → b * 4 >>> 2 ≡ b
unfolding ◌>>>◌
shift_two b = omega arith

-- The publication of buffer `b` makes it the target, sets its count to 0, and changes no other count.
pub publish-Publishes : (w b : ℕ) → w < u64_mod → b < 15 → Publishes w b (publish (b * 4) w)
unfolding publish
publish-Publishes w b hw hb = rw (shift_two b) (record {
  fits =
      bit_or-lt_u64 _ _ (shl-lt b 60)
        (bit_and-lt_u64 _ _ (bit_and-lt_u64 _ _ hw (omega arith)) (bit_not-lt _));
  target =
      nibble-bit_or_clear _ _ 15
        (nibble-cleared_ne _ b 15 (omega arith) (omega arith) (omega arith) ∙ top_cleared)
      ∙ nibble-shl_self b 15 (omega arith) (omega arith);
  freed =
      nibble-clear_bit_or _ _ b (nibble-shl_ne b 15 b (omega arith) (omega arith) (omega arith))
      ∙ nibble-cleared_self _ b (omega arith);
  others = λ i hi ne.
      nibble-clear_bit_or _ _ i (nibble-shl_ne b 15 i (omega arith) (omega arith) (omega arith))
      ∙ nibble-cleared_ne _ b i (omega arith) (omega arith) ne
      ∙ nibble-bit_and_full w _ i (low_fields i hi);
})
  where
    top_cleared : nibble (bit_and w 0x0FFFFFFFFFFFFFFF) 15 ≡ 0
    top_cleared = nibble-bit_and_clear w 0x0FFFFFFFFFFFFFFF 15 (unfold nibble in refl)

-- A write that is out of date clears its buffer's count and nothing else.
pub drop_claim-Stores : (w b : ℕ) → w < u64_mod → b < 16 → Stores w b 0 (drop_claim (b * 4) w)
unfolding drop_claim
drop_claim-Stores w b hw hb = record {
  fits = bit_and-lt_u64 _ _ hw (bit_not-lt _);
  stored = nibble-cleared_self w b hb;
  others = λ i hi ne. nibble-cleared_ne w b i hb hi ne;
}

-- A success of `claim` is a free buffer that is now marked.
pub claim-eq-some :
    (w target4 w' : ℕ)
    → w < u64_mod
    → nibble w 15 < 15
    → claim w ≡ some (target4, w')
    → (b : ℕ) × (target4 ≡ b * 4) × (b < 15) × IsFree w b × Stores w b 15 w'
claim-eq-some w target4 w' hw ht e = elim (claim_cases w hw ht) [
  | inl full ↦ absurd (cc (full.0))
  | inr (b, w'', c) ↦
      let et : target4 ≡ b * 4 = ground (arith, c.returns) in
      let ew : w' ≡ w'' = ground (arith, c.returns) in (b, et, c.low, c.free, rw ew c.marks)
]
