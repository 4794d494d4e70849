-- ===== src/Training/DataLoader/Padding.antt =====
-- `_pad_sequence` and the shape of the batches.
use nexusfeed.Prelude.{
  ℕ, ◌+◌, ◌-◌, ◌<◌, ◌≡◌, refl, sym, false, List, ◌++◌, nat_beq, length, drop, take, replicate,
  arith, ◌⊎◌, length-drop, take-append-drop, length-take,
}
use nexusfeed.Training.DataLoader.{last_items, pad_sequence}

-- Cut or padded to a positive length, a sequence has that length: its last items, which keep their
-- order, stand at the end, behind zeros if there are too few of them, and items are left out only
-- where no zero stands.
pub pad_sequence_lem :
    (sequence : List ℕ) (length' : ℕ)
    → 0 < length'
    → (left_out cut : List ℕ) × (zeros : ℕ) × (sequence ≡ left_out ++ cut)
      × (pad_sequence sequence length' ≡ replicate zeros 0 ++ cut)
      × (zeros + length cut ≡ length')
      × ((length left_out ≡ 0) ⊎ (zeros ≡ 0))
unfolding pad_sequence last_items
pad_sequence_lem sequence length' positive =
    let n = length sequence - length' in
    let given : nat_beq length' 0 ≡ false = ground arith in
    let cut = drop n sequence in
    let size = length-drop n sequence in
    let front = length-take n sequence in
    (
      take n sequence,
      cut,
      length' - length cut,
      sym (take-append-drop n sequence),
      rw given refl,
      omega arith,
      ground arith,
    )

-- With length 0 nothing is cut: the sequence comes back as it was.
pub pad_sequence_zero : (sequence : List ℕ) → pad_sequence sequence 0 ≡ sequence
unfolding pad_sequence last_items
pad_sequence_zero sequence =
    let none_left : 0 - length sequence ≡ 0 = omega arith in rw none_left refl
