-- ===== src/Training/NegativeSampling/Shown.antt =====
-- `sample_shown_not_clicked_negatives`: how many negatives it returns, and which.
use mathlib.Core.List.{Mem, Mem-prop, not-mem-nil, mem-append, mem-append_left, mem-append_right}
use mathlib.Core.Logic.Or
use mathlib.Core.HLevel.{⊥_prop}
use nexusfeed.Prelude.{
  ℕ, ◌+◌, ◌-◌, ◌≤◌, ◌≡◌, refl, min, not, List, [], ◌∷◌, ◌++◌, filter, if◌then◌else◌, length-append,
  nat_beq, length, leb, leb→le, arith, Bool-cases, inl, inr, Mem-filter, nat_beq_iff,
}
use nexusfeed.Training.NegativeSampling.{shown_not_clicked, sample_shown_not_clicked_negatives}

-- what `random.sample` documents: so many members
pub record SampleLaws (sample : List ℕ → ℕ → List ℕ) : Type 0 where
  pub sample_length : (xs : List ℕ) (k : ℕ) → k ≤ length xs → length (sample xs k) ≡ k
  pub sample_mem : (xs : List ℕ) (k x : ℕ) → k ≤ length xs → Mem x (sample xs k) → Mem x xs

shown_not_clicked-not_clicked :
    (impressions : List (ℕ × List ℕ)) (clicked_item : ℕ)
    → ¬ Mem clicked_item (shown_not_clicked impressions clicked_item)
unfolding shown_not_clicked
shown_not_clicked-not_clicked [] clicked_item m = not-mem-nil m
shown_not_clicked-not_clicked ((u, shown_items) ∷ impressions) clicked_item m =
    Or.elim ⊥_prop (mem-append.0 m)
      (λ here.
        let (_, other) = Mem-filter (λ item. not (nat_beq item clicked_item)) shown_items here in
        let self = (nat_beq_iff clicked_item clicked_item).1 refl in ground arith)
      (shown_not_clicked-not_clicked impressions clicked_item)

-- all the items that the impressions show, one impression after the other
abbrev pub displayed : List (ℕ × List ℕ) → List ℕ
displayed [] = []
displayed ((_, shown_items) ∷ impressions) = shown_items ++ displayed impressions

-- how often an item stands in a list
abbrev pub times : ℕ → List ℕ → ℕ
times item [] = 0
times item (x ∷ xs) = (if nat_beq x item then 1 else 0) + times item xs

length-others :
    (xs : List ℕ) (item : ℕ)
    → length (filter (λ x. not (nat_beq x item)) xs) + times item xs ≡ length xs
unfolding filter
length-others [] item = refl
length-others (x ∷ xs) item = let rest = length-others xs item in ground arith

times-append : (item : ℕ) (xs ys : List ℕ) → times item (xs ++ ys) ≡ times item xs + times item ys
times-append item [] ys = omega arith
times-append item (x ∷ xs) ys = omega (arith, times-append item xs ys)

shown_not_clicked-length :
    (impressions : List (ℕ × List ℕ)) (clicked_item : ℕ)
    → length (shown_not_clicked impressions clicked_item)
        + times clicked_item (displayed impressions)
      ≡ length (displayed impressions)
unfolding shown_not_clicked
shown_not_clicked-length [] clicked_item = refl
shown_not_clicked-length ((u, shown_items) ∷ impressions) clicked_item = omega (
  arith,
  length-append (filter (λ x. not (nat_beq x clicked_item)) shown_items)
      (shown_not_clicked impressions clicked_item),
  length-append shown_items (displayed impressions),
  times-append clicked_item shown_items (displayed impressions),
  length-others shown_items clicked_item,
  shown_not_clicked-length impressions clicked_item,
)

shown_not_clicked-displayed :
    (impressions : List (ℕ × List ℕ)) (clicked_item : ℕ) (x : ℕ)
    → Mem x (shown_not_clicked impressions clicked_item)
    → Mem x (displayed impressions)
unfolding shown_not_clicked
shown_not_clicked-displayed [] clicked_item x m = m
shown_not_clicked-displayed ((u, shown_items) ∷ impressions) clicked_item x m =
    Or.elim Mem-prop (mem-append.0 m)
      (λ here.
        mem-append_left (displayed impressions)
          (Mem-filter (λ y. not (nat_beq y clicked_item)) shown_items here).0)
      (λ there.
        mem-append_right shown_items (shown_not_clicked-displayed impressions clicked_item x there))

-- The result never holds the clicked item, and every item in it was shown in some impression. It has
-- `ratio` items, or as many as there are showings of other items than the clicked one, if those are
-- fewer: nothing is sampled in their place.
pub sample_shown_not_clicked_negatives_lem :
    (sample : List ℕ → ℕ → List ℕ) (impressions : List (ℕ × List ℕ)) (clicked_item ratio : ℕ)
    → SampleLaws sample
    → (length (sample_shown_not_clicked_negatives sample impressions clicked_item ratio)
        ≡ min ratio (length (displayed impressions) - times clicked_item (displayed impressions)))
      × (¬ Mem clicked_item
          (sample_shown_not_clicked_negatives sample impressions clicked_item ratio))
      × ((x : ℕ)
          → Mem x (sample_shown_not_clicked_negatives sample impressions clicked_item ratio)
          → Mem x (displayed impressions))
unfolding sample_shown_not_clicked_negatives
sample_shown_not_clicked_negatives_lem sample impressions clicked ratio laws =
    let shown = shown_not_clicked impressions clicked in
    let size = shown_not_clicked-length impressions clicked in
    elim (Bool-cases (leb ratio (length shown))) [
      | inl enough ↦
          let fits = leb→le ratio (length shown) enough in
          rw enough (
            omega (arith, laws.sample_length shown ratio fits, size),
            λ m.
                shown_not_clicked-not_clicked impressions clicked
                  (laws.sample_mem shown ratio clicked fits m),
            λ x m.
                shown_not_clicked-displayed impressions clicked x
                  (laws.sample_mem shown ratio x fits m),
          )
      | inr few ↦
          let less : length shown ≤ ratio = ground arith in
          rw few (
            omega (arith, size),
            shown_not_clicked-not_clicked impressions clicked,
            shown_not_clicked-displayed impressions clicked,
          )
    ]
