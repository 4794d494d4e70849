-- ===== src/Training/NegativeSampling/Rows.antt =====
-- `sample_in_batch_negatives`: that its loops end, and what the rows hold.
use mathlib.Core.List.{append_assoc, append-nil}
use nexusfeed.Prelude.{
  ℕ, zero, suc, ◌+◌, ◌-◌, ◌*◌, ◌≤◌, ◌<◌, ◌≡◌, refl, ap, ◌∙◌, subst, true, false, none, some, List,
  [], ◌∷◌, ◌++◌, nat_beq, ltb, length, arith, Bool-cases, inl, inr, length-append, if◌then◌else◌,
}
use nexusfeed.Training.NegativeSampling.{choose, choose_rows, sample_in_batch_negatives}

module _ (randint : ℕ → ℕ) (positive : ℕ) where
  -- calls of `randint` that were not the positive item
  pub data Drawn : List ℕ → Type 0 where
    nothing : Drawn []
    also :
        {xs : List ℕ} (call : ℕ)
        → ¬ (randint call ≡ positive)
        → Drawn xs
        → Drawn (randint call ∷ xs)

  module _ (ratio gap : ℕ)
      (hits : (i : ℕ) → (d : ℕ) × (d < gap) × (¬ (randint (i + d) ≡ positive))) where
    -- the rounds that suffice for so many negatives
    abbrev pub rounds : ℕ → ℕ
    rounds zero = 0
    rounds (suc m) = gap + rounds m

    choose_done :
        (fuel i : ℕ) (chosen : List ℕ)
        → length chosen ≡ ratio
        → choose randint positive ratio fuel i chosen ≡ some (chosen, i)
    unfolding choose
    choose_done zero i chosen full =
        let enough : ltb (length chosen) ratio ≡ false = ground arith in rw enough refl
    choose_done (suc fuel) i chosen full =
        let enough : ltb (length chosen) ratio ≡ false = ground arith in rw (enough, choose) refl

    choose_step :
        (fuel i : ℕ) (chosen : List ℕ)
        → length chosen < ratio
        → choose randint positive ratio (suc fuel) i chosen
          ≡ choose randint positive ratio fuel
              (i + 1)
              (if nat_beq (randint i) positive then chosen else chosen ++ randint i ∷ [])
    unfolding choose
    choose_step fuel i chosen short =
        let more : ltb (length chosen) ratio ≡ true = ground arith in rw (more, choose) refl

    -- What the loop does with `missing` more to choose.
    unfoldable pub Chosen : (fuel i missing : ℕ) → List ℕ → Type 0
    Chosen fuel i missing chosen =
        (new : List ℕ) × (j : ℕ) × (choose randint positive ratio fuel i chosen
          ≡ some (chosen ++ new, j))
        × (length new ≡ missing)
        × Drawn new

    extend :
        (fuel i missing : ℕ) (chosen : List ℕ)
        → length chosen < ratio
        → ¬ (randint i ≡ positive)
        → Chosen fuel (i + 1) missing (chosen ++ randint i ∷ [])
        → Chosen (suc fuel) i (suc missing) chosen
    unfolding Chosen
    extend fuel i missing chosen short other (new, j, runs, size, drawn) =
        let fresh : nat_beq (randint i) positive ≡ false = ground arith in
        let one = choose_step fuel i chosen short in
        let step = rw fresh at one in
        (
          randint i ∷ new,
          j,
          step ∙ (runs ∙ rw (append_assoc chosen (randint i ∷ []) new) refl),
          ap suc size,
          Drawn.also i other drawn,
        )

    skip :
        (fuel i missing : ℕ) (chosen : List ℕ)
        → length chosen < ratio
        → randint i ≡ positive
        → Chosen fuel (i + 1) missing chosen
        → Chosen (suc fuel) i missing chosen
    unfolding Chosen
    skip fuel i missing chosen short same (new, j, runs, size, drawn) =
        let stale : nat_beq (randint i) positive ≡ true = ground arith in
        let one = choose_step fuel i chosen short in
        let step = rw stale at one in (new, j, step ∙ runs, size, drawn)

    finish : (fuel i : ℕ) (chosen : List ℕ) → length chosen ≡ ratio → Chosen fuel i 0 chosen
    unfolding Chosen
    finish fuel i chosen full =
        ([], i, rw (append-nil chosen) (choose_done fuel i chosen full), refl, Drawn.nothing)

    length-concat : (chosen : List ℕ) (x : ℕ) → length (chosen ++ x ∷ []) ≡ length chosen + 1
    length-concat chosen x = length-append chosen (x ∷ [])

    -- call `i` is a negative, and the calls after it are left to `rest`
    choose_take :
        (fuel i missing : ℕ) (chosen : List ℕ)
        → length chosen + suc missing ≡ ratio
        → ¬ (randint i ≡ positive)
        → rounds missing ≤ fuel
        → ((d m : ℕ) (chosen' : List ℕ)
            → length chosen' + suc m ≡ ratio
            → ¬ (randint (i + 1 + d) ≡ positive)
            → d + suc (rounds m) ≤ fuel
            → Chosen fuel (i + 1) (suc m) chosen')
        → Chosen (suc fuel) i (suc missing) chosen
    choose_take fuel i zero chosen size hit enough rest =
        extend fuel i 0 chosen (omega arith) hit
          (finish fuel (i + 1) _ (omega (arith, length-concat chosen (randint i))))
    choose_take fuel i (suc missing) chosen size hit enough rest =
        let (d, near, hit') = hits (i + 1) in
        extend fuel i (suc missing) chosen (omega arith) hit (
          rest d missing (chosen ++ randint i ∷ [])
            (omega (arith, length-concat chosen (randint i))) hit' (omega arith))

    -- with the next negative at call `i + d`
    choose_from :
        (fuel i d missing : ℕ) (chosen : List ℕ)
        → length chosen + suc missing ≡ ratio
        → ¬ (randint (i + d) ≡ positive)
        → d + suc (rounds missing) ≤ fuel
        → Chosen fuel i (suc missing) chosen
    choose_from zero i d missing chosen size hit enough = absurd (omega arith)
    choose_from (suc fuel) i zero missing chosen size hit enough =
        let at : i + 0 ≡ i = omega arith in
        choose_take fuel i missing chosen size (rw at at hit) (omega arith)
          (choose_from fuel (i + 1))
    choose_from (suc fuel) i (suc d) missing chosen size hit enough =
        elim (Bool-cases (nat_beq (randint i) positive)) [
          | inl same ↦
              let at : i + suc d ≡ i + 1 + d = omega arith in
              skip fuel i (suc missing) chosen (omega arith) (ground arith)
                (choose_from fuel (i + 1) d missing chosen size (rw at at hit) (omega arith))
          | inr other ↦
              choose_take fuel i missing chosen size (ground arith) (omega arith)
                (choose_from fuel (i + 1))
        ]

    pub choose_all : (fuel i : ℕ) → rounds ratio ≤ fuel → Chosen fuel i ratio []
    choose_all fuel i enough = elim (Bool-cases (ltb 0 ratio)) [
      | inl some_wanted ↦
          let e : suc (ratio - 1) ≡ ratio = ground arith in
          let all : gap + rounds (ratio - 1) ≡ rounds ratio = ap rounds e in
          let (d, near, hit) = hits i in
          subst (λ m. Chosen fuel i m []) e
            (choose_from fuel i d (ratio - 1) [] (omega arith) hit (omega arith))
      | inr none_wanted ↦
          let e : 0 ≡ ratio = ground arith in subst (λ m. Chosen fuel i m []) e (finish fuel i [] e)
    ]

    pub rounds_mul : (m : ℕ) → rounds m ≡ m * gap
    rounds_mul zero = omega arith
    rounds_mul (suc m) = omega (arith, rounds_mul m)

-- The rows for these positive items: each has `ratio` calls, none of which was the row's own item.
pub data Rows (randint : ℕ → ℕ) (ratio : ℕ) : List ℕ → List (List ℕ) → Type 0 where
  no_rows : Rows randint ratio [] []
  row :
      {positive : ℕ} {positives row : List ℕ} {rows : List (List ℕ)}
      → length row ≡ ratio
      → Drawn randint positive row
      → Rows randint ratio positives rows
      → Rows randint ratio (positive ∷ positives) (row ∷ rows)

module _ (randint : ℕ → ℕ) (ratio gap : ℕ)
    (hits : (positive i : ℕ) → (d : ℕ) × (d < gap) × (¬ (randint (i + d) ≡ positive))) where
  choose_rows-Rows :
      (fuel i : ℕ) (positives : List ℕ)
      → ratio * gap ≤ fuel
      → (rows : List (List ℕ)) × (choose_rows randint ratio fuel i positives ≡ some rows)
        × Rows randint ratio positives rows
  unfolding choose_rows Chosen
  choose_rows-Rows fuel i [] enough = ([], refl, Rows.no_rows)
  choose_rows-Rows fuel i (positive ∷ positives) enough =
      let same = rounds_mul randint positive ratio gap (hits positive) ratio in
      let (chosen, j, runs, size, drawn) =
        choose_all randint positive ratio gap (hits positive) fuel i (omega arith) in
      let (rows, rest, good) = choose_rows-Rows fuel j positives enough in
      (chosen ∷ rows, rw (runs, rest) refl, Rows.row size drawn good)

  -- If of any `gap` calls of `random.randint` in a row one differs from any given item, then the
  -- sampling ends, after at most `ratio * gap` rounds for each row, and returns a row for every
  -- positive item, with `ratio` of the drawn items, none of them the row's own item.
  pub sample_in_batch_negatives_total :
      (fuel : ℕ) (positive_item_indices : List ℕ)
      → ratio * gap ≤ fuel
      → (rows : List (List ℕ)) × (sample_in_batch_negatives randint ratio fuel positive_item_indices
          ≡ some rows)
        × Rows randint ratio positive_item_indices rows
  unfolding sample_in_batch_negatives
  sample_in_batch_negatives_total fuel positives enough = choose_rows-Rows fuel 0 positives enough

module _ (randint : ℕ → ℕ) (positive ratio : ℕ) (only : (i : ℕ) → randint i ≡ positive) where
  choose_stuck :
      (fuel i : ℕ) (chosen : List ℕ)
      → length chosen < ratio
      → choose randint positive ratio fuel i chosen ≡ none
  unfolding choose
  choose_stuck zero i chosen short =
      let more : ltb (length chosen) ratio ≡ true = ground arith in rw more refl
  choose_stuck (suc fuel) i chosen short =
      let more : ltb (length chosen) ratio ≡ true = ground arith in
      let same = only i in
      let stale : nat_beq (randint i) positive ≡ true = ground arith in
      rw (more, choose, stale) (choose_stuck fuel (i + 1) chosen short)

  -- If every call of `random.randint` gives the positive item, as with a catalog of this one item,
  -- the loop for its row never ends: no number of rounds is enough.
  pub sample_in_batch_negatives_stuck :
      (fuel : ℕ) (positives : List ℕ)
      → 0 < ratio
      → sample_in_batch_negatives randint ratio fuel (positive ∷ positives) ≡ none
  unfolding sample_in_batch_negatives choose_rows
  sample_in_batch_negatives_stuck fuel positives wanted =
      let stuck = choose_stuck fuel 0 [] wanted in rw stuck refl
