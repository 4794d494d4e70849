-- ===== src/Sorting.antt =====
-- `sorted(xs, key=…, reverse=True)` and `max(xs, key=…)` over an order test: Python's sort is
-- stable in both directions, and its `max` keeps the first of several greatest elements.
use mathlib.Core.Path.{◌≡◌}
use mathlib.Core.List.{Perm, Pairwise, Mem, mem-cons_self, mem-cons_of_mem}
use mathlib.Core.List.{Pairwise-singleton, not-mem-nil}
use mathlib.Core.List.Perm
use nexusfeed.Prelude.{
  false, List, [], ◌∷◌, Bool-cases, inl, inr, if◌then◌else◌, length, length-perm, forall-cons,
}
use nexusfeed.Float.{Float, IsOrdered}

module _ {ℓ} {A : Type ℓ} {W : Type 0} ⦃f : Float W⦄ (key : A → W) where
  -- `x` goes behind every element with a greater key, and before its equals
  unfoldable pub insert_desc : A → List A → List A
  insert_desc x [] = x ∷ []
  insert_desc x (y ∷ ys) = if f.lt (key x) (key y) then y ∷ insert_desc x ys else x ∷ y ∷ ys

  unfoldable pub sort_desc : List A → List A
  unfolding insert_desc
  sort_desc [] = []
  sort_desc (x ∷ xs) = insert_desc x (sort_desc xs)

  -- `max`: the first element whose key no other key exceeds
  unfoldable pub max_from : A → List A → A
  max_from best [] = best
  max_from best (x ∷ xs) = max_from (if f.lt (key best) (key x) then x else best) xs

  -- greater keys stand first
  abbrev pub IsDescending : List A → Type ℓ
  IsDescending = Pairwise (λ a b. f.lt (key a) (key b) ≡ false)

  insert_desc-perm : (x : A) (xs : List A) → Perm (insert_desc x xs) (x ∷ xs)
  unfolding insert_desc
  insert_desc-perm x [] = Perm.refl (x ∷ [])
  insert_desc-perm x (y ∷ ys) = elim (Bool-cases (f.lt (key x) (key y))) [
    | inl less ↦ rw less (Perm.trans (Perm.cons y (insert_desc-perm x ys)) (Perm.swap x y ys))
    | inr other ↦ rw other (Perm.refl (x ∷ y ∷ ys))
  ]

  pub sort_desc-perm : (xs : List A) → Perm (sort_desc xs) xs
  unfolding sort_desc
  sort_desc-perm [] = Perm.refl []
  sort_desc-perm (x ∷ xs) =
      Perm.trans (insert_desc-perm x (sort_desc xs)) (Perm.cons x (sort_desc-perm xs))

  pub length-sort_desc : (xs : List A) → length (sort_desc xs) ≡ length xs
  length-sort_desc xs = length-perm (sort_desc-perm xs)

  pub max_from-mem : (best : A) (xs : List A) → Mem (max_from best xs) (best ∷ xs)
  unfolding max_from
  max_from-mem best [] = mem-cons_self
  max_from-mem best (x ∷ xs) = elim (Bool-cases (f.lt (key best) (key x))) [
    | inl less ↦ rw less (mem-cons_of_mem best (max_from-mem x xs))
    | inr other ↦
        rw other ((Perm.mem_iff (Perm.swap x best xs)).1 (mem-cons_of_mem x (max_from-mem best xs)))
  ]

  module _ (laws : IsOrdered W) where
    insert_desc-IsDescending :
        (x : A) {xs : List A} → IsDescending xs → IsDescending (insert_desc x xs)
    unfolding insert_desc
    insert_desc-IsDescending x Pairwise.nil = Pairwise-singleton _ x
    insert_desc-IsDescending x (Pairwise.cons {a = y} {l = ys} below s) =
        elim (Bool-cases (f.lt (key x) (key y))) [
          | inl less ↦ rw less (
              Pairwise.cons
                (λ z m.
                  forall-cons (laws.asym _ _ less) below z
                    ((Perm.mem_iff (insert_desc-perm x ys)).0 m))
                (insert_desc-IsDescending x s))
          | inr other ↦ rw other (
              Pairwise.cons (forall-cons other (λ z m. laws.co_trans _ _ _ other (below z m)))
                (Pairwise.cons below s))
        ]

    -- the result of `sorted(…, reverse=True)` descends
    pub sort_desc-IsDescending : (xs : List A) → IsDescending (sort_desc xs)
    unfolding sort_desc
    sort_desc-IsDescending [] = Pairwise.nil
    sort_desc-IsDescending (x ∷ xs) = insert_desc-IsDescending x (sort_desc-IsDescending xs)

    -- no element has a greater key than the result of `max`
    pub max_from-greatest :
        (best : A) (xs : List A) (y : A)
        → Mem y (best ∷ xs)
        → f.lt (key (max_from best xs)) (key y) ≡ false
    unfolding max_from
    max_from-greatest best [] = forall-cons (laws.irrefl _) (λ y m. absurd (not-mem-nil m))
    max_from-greatest best (x ∷ xs) = elim (Bool-cases (f.lt (key best) (key x))) [
      | inl less ↦ rw less (
          let rest = max_from-greatest x xs in
          forall-cons (laws.co_trans _ _ _ (rest x mem-cons_self) (laws.asym _ _ less)) rest)
      | inr other ↦ rw other (
          let rest = max_from-greatest best xs in
          forall-cons (rest best mem-cons_self) (
            forall-cons (laws.co_trans _ _ _ (rest best mem-cons_self) other)
              (λ y m. rest y (mem-cons_of_mem best m))))
    ]
