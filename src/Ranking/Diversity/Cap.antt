-- ===== src/Ranking/Diversity/Cap.antt =====
-- `category_exposure_cap`: what is kept, what is moved to the end, and in which order.
use mathlib.Core.List.{
  Perm, Sublist, Mem, perm_middle, not-mem-nil, mem-cons, mem-cons_self, mem-cons_of_mem,
  nil-sublist,
}
use mathlib.Core.List.Perm
use mathlib.Core.List.Sublist
use mathlib.Core.Logic.Or
use nexusfeed.Prelude.{
  ℕ, suc, ◌+◌, ◌≤◌, ◌≡◌, refl, ap, false, List, [], ◌∷◌, ◌++◌, String, ltb, length, if◌then◌else◌,
  string_eq, ◌==◌, arith, Bool-cases, inl, inr, get_default, put, get_default-put,
}
use nexusfeed.Float.{Fraction}
use nexusfeed.Ranking.Diversity.{category_of, cap_loop, max_category_count, category_exposure_cap}

module _ (categories : List (String × String)) where
  -- how many items of the list are of category `c`
  unfoldable pub count_category : String → List String → ℕ
  count_category c [] = 0
  count_category c (x ∷ xs) =
      if category_of categories x == c then suc (count_category c xs) else count_category c xs

  abbrev counted : String → List (String × ℕ) → ℕ
  counted c counts = get_default c 0 counts

  bump :
      (counts : List (String × ℕ)) (k c : String)
      → counted c (put k (counted k counts + 1) counts)
        ≡ (if k == c then counted k counts + 1 else counted c counts)
  bump counts k c = get_default-put k c (counted k counts + 1) 0 counts

  module _ (m : ℕ) where
    cap_loop-perm :
        (counts : List (String × ℕ)) (ids : List String)
        → Perm ((cap_loop categories m counts ids).0 ++ (cap_loop categories m counts ids).1) ids
    unfolding cap_loop
    cap_loop-perm counts [] = Perm.refl []
    cap_loop-perm counts (x ∷ rest) =
        let k = category_of categories x in
        elim (Bool-cases (ltb (counted k counts) m)) [
          | inl fits ↦
              rw fits (Perm.cons x (cap_loop-perm (put k (counted k counts + 1) counts) rest))
          | inr full ↦
              rw full (Perm.trans (perm_middle _ _) (Perm.cons x (cap_loop-perm counts rest)))
        ]

    cap_loop-sublist :
        (counts : List (String × ℕ)) (ids : List String)
        → Sublist (cap_loop categories m counts ids).0 ids
          × Sublist (cap_loop categories m counts ids).1 ids
    unfolding cap_loop
    cap_loop-sublist counts [] = (nil-sublist [], nil-sublist [])
    cap_loop-sublist counts (x ∷ rest) =
        let k = category_of categories x in
        elim (Bool-cases (ltb (counted k counts) m)) [
          | inl fits ↦
              let (kept, moved) = cap_loop-sublist (put k (counted k counts + 1) counts) rest in
              rw fits (Sublist.cons-cons x kept, Sublist.cons x moved)
          | inr full ↦
              let (kept, moved) = cap_loop-sublist counts rest in
              rw full (Sublist.cons x kept, Sublist.cons-cons x moved)
        ]

    -- a category is kept as often as its count leaves room for
    cap_loop-count-le :
        (c : String) (counts : List (String × ℕ)) (ids : List String)
        → counted c counts ≤ m
        → count_category c (cap_loop categories m counts ids).0 + counted c counts ≤ m
    unfolding cap_loop count_category
    cap_loop-count-le c counts [] h = omega arith
    cap_loop-count-le c counts (x ∷ rest) h =
        let k = category_of categories x in
        let counts' = put k (counted k counts + 1) counts in
        ground (
          arith,
          cap_loop-count-le c counts' rest,
          cap_loop-count-le c counts rest,
          bump counts k c,
          string_eq.beq_iff k c,
        )

    -- an item is moved to the end only when its category is full
    cap_loop-full :
        (x : String) (counts : List (String × ℕ)) (ids : List String)
        → ((c : String) → counted c counts ≤ m)
        → Mem x (cap_loop categories m counts ids).1
        → count_category (category_of categories x) (cap_loop categories m counts ids).0
            + counted (category_of categories x) counts
          ≡ m
    unfolding cap_loop count_category
    cap_loop-full x counts [] h mem = absurd (not-mem-nil mem)
    cap_loop-full x counts (y ∷ rest) h mem =
        let k = category_of categories y in
        let c = category_of categories x in
        let counts' = put k (counted k counts + 1) counts in
        elim (Bool-cases (ltb (counted k counts) m)) [
          | inl fits ↦
              let room : (c : String) → counted c counts' ≤ m =
                λ d. ground (arith, h d, bump counts k d, string_eq.beq_iff k d) in
              let rest_full = cap_loop-full x counts' rest room (rw fits at mem) in
              rw fits (ground (arith, rest_full, bump counts k c, string_eq.beq_iff k c))
          | inr full ↦ rw full (
              Or.elim (hlevel) (mem-cons.0 (rw full at mem))
                (λ e. rw e (ground (arith, h k, cap_loop-count-le k counts rest)))
                (cap_loop-full x counts rest h))
        ]

    cap_loop-one_full :
        (c : String) (counts : List (String × ℕ)) (ids : List String)
        → ((x : String) → Mem x ids → category_of categories x ≡ c)
        → m ≤ counted c counts
        → cap_loop categories m counts ids ≡ ([], ids)
    unfolding cap_loop
    cap_loop-one_full c counts [] h full = refl
    cap_loop-one_full c counts (x ∷ rest) h full =
        let rest_full =
          cap_loop-one_full c counts rest (λ y mem. h y (mem-cons_of_mem x mem)) full in
        let closed : ltb (counted c counts) m ≡ false = ground arith in
        rw (h x mem-cons_self, closed, rest_full)

    -- with a single category the order stays
    cap_loop-one :
        (c : String) (counts : List (String × ℕ)) (ids : List String)
        → ((x : String) → Mem x ids → category_of categories x ≡ c)
        → (cap_loop categories m counts ids).0 ++ (cap_loop categories m counts ids).1 ≡ ids
    unfolding cap_loop
    cap_loop-one c counts [] h = refl
    cap_loop-one c counts (x ∷ rest) h =
        let rest_one = λ (y : String) (mem : Mem y rest). h y (mem-cons_of_mem x mem) in
        elim (Bool-cases (ltb (counted c counts) m)) [
          | inl fits ↦
              rw (h x mem-cons_self, fits)
                (ap (◌∷◌ x) (cap_loop-one c (put c (counted c counts + 1) counts) rest rest_one))
          | inr full ↦
              rw (h x mem-cons_self, full, cap_loop-one_full c counts rest rest_one (ground arith))
        ]

  count_category-append :
      (c : String) (xs ys : List String)
      → count_category c (xs ++ ys) ≡ count_category c xs + count_category c ys
  unfolding count_category
  count_category-append c [] ys = omega arith
  count_category-append c (x ∷ xs) ys = ground (arith, count_category-append c xs ys)

  module _ (ids : List String) (fraction : Fraction) where
    -- The result is a rearrangement of the input.
    pub category_exposure_cap-perm : Perm (category_exposure_cap categories ids fraction) ids
    unfolding category_exposure_cap
    category_exposure_cap-perm = cap_loop-perm (max_category_count (length ids) fraction) [] ids

    -- The result is a kept part and then an overflow, which together are the input rearranged, each of
    -- them in the order of the input. In the kept
    -- part no category stands more often than `max(1, int(len(ranked_ids) * fraction))`, and an
    -- item is in the overflow only if the kept part holds that many of its category.
    pub category_exposure_cap_lem :
        (kept overflow : List String) × (category_exposure_cap categories ids fraction
          ≡ kept ++ overflow)
        × Perm (kept ++ overflow) ids
        × Sublist kept ids
        × Sublist overflow ids
        × ((c : String) → count_category c kept ≤ max_category_count (length ids) fraction)
        × ((x : String)
            → Mem x overflow
            → count_category (category_of categories x) kept
              ≡ max_category_count (length ids) fraction)
    unfolding category_exposure_cap
    category_exposure_cap_lem =
        let m = max_category_count (length ids) fraction in
        let parts = cap_loop categories m [] ids in
        let (kept, overflow) = cap_loop-sublist m [] ids in
        (
          parts.0,
          parts.1,
          refl,
          cap_loop-perm m [] ids,
          kept,
          overflow,
          λ c. omega (arith, cap_loop-count-le m c [] ids (omega arith)),
          λ x mem. omega (arith, cap_loop-full m x [] ids (λ c. omega arith) mem),
        )

    -- If all items have one category, the cap changes nothing.
    pub category_exposure_cap-one :
        (c : String)
        → ((x : String) → Mem x ids → category_of categories x ≡ c)
        → category_exposure_cap categories ids fraction ≡ ids
    unfolding category_exposure_cap
    category_exposure_cap-one c h =
        cap_loop-one (max_category_count (length ids) fraction) c [] ids h
