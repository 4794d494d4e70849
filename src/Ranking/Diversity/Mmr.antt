-- ===== src/Ranking/Diversity/Mmr.antt =====
-- `mmr_rerank`: every round takes a best remaining candidate, and nothing is lost.
use mathlib.Core.List.{
  Perm, Mem, not-mem-nil, mem-cons, mem-cons_self, mem-cons_of_mem, mem-append_left, map-append,
  append_assoc,
}
use mathlib.Core.List.Perm
use mathlib.Core.Logic.Or
use native.Mathlib.Bridge.{le_prop}
use nexusfeed.Prelude.{
  ℕ, zero, suc, ◌+◌, ◌≤◌, ◌<◌, ◌≡◌, refl, ap, min, false, some, List, [], ◌∷◌, ◌++◌, map, ltb,
  length, length-append, length-perm, length-map, nat_eq, arith, Bool-cases, inl, inr, ltb→lt, ◌⊎◌,
  remove, remove-perm, elem_of_Mem, get_or, get_elem?-get_or,
}
use nexusfeed.Float.{Float, IsOrdered}
use nexusfeed.Sorting.{max_from, max_from-mem, max_from-greatest}
use nexusfeed.Ranking.Diversity.{range_from, gather, round_key, mmr_loop, mmr_rerank}

range_from-lt : (i start n : ℕ) → Mem i (range_from start n) → i < start + n
unfolding range_from
range_from-lt i start zero m = absurd (not-mem-nil m)
range_from-lt i start (suc n) m =
    Or.elim le_prop (mem-cons.0 m) (λ e. omega arith)
      (λ m. omega (arith, range_from-lt i (suc start) n m))

length-range_from : (start n : ℕ) → length (range_from start n) ≡ n
unfolding range_from
length-range_from start zero = refl
length-range_from start (suc n) = ap suc (length-range_from (suc start) n)

module _ {ℓ} {A : Type ℓ} where
  gather_in_range :
      (xs : List A) (d : A) (is : List ℕ)
      → ((i : ℕ) → Mem i is → i < length xs)
      → gather xs is ≡ some (map (λ i. get_or xs i d) is)
  unfolding gather
  gather_in_range xs d [] h = refl
  gather_in_range xs d (i ∷ is) h = ground (
    arith,
    get_elem?-get_or xs i d (h i mem-cons_self),
    gather_in_range xs d is (λ j m. h j (mem-cons_of_mem i m)),
  )

  get_or-middle : (before xs : List A) (x d : A) → get_or (before ++ x ∷ xs) (length before) d ≡ x
  get_or-middle [] xs x d = refl
  get_or-middle (y ∷ before) xs x d = get_or-middle before xs x d

  map-get_or-range_from :
      (before xs : List A) (d : A)
      → map (λ i. get_or (before ++ xs) i d) (range_from (length before) (length xs)) ≡ xs
  unfolding range_from
  map-get_or-range_from before [] d = refl
  map-get_or-range_from before (x ∷ xs) d =
      let next = map-get_or-range_from (before ++ x ∷ []) xs d in
      let len : length (before ++ x ∷ []) ≡ suc (length before) =
        omega (arith, length-append before (x ∷ [])) in
      rw (get_or-middle before xs x d)
        (ap (◌∷◌ x) (rw (append_assoc before (x ∷ []) xs, len) at next))

module _ {W : Type 0} ⦃f : Float W⦄ (relevance : ℕ → W) (max_sim : List ℕ → ℕ → W) (lam : W) where
  abbrev pub key : List ℕ → ℕ → W
  key = round_key relevance max_sim lam

  abbrev loop : ℕ → ℕ → List ℕ → List ℕ → List ℕ
  loop = mmr_loop relevance max_sim lam

  abbrev best_of : List ℕ → ℕ → List ℕ → ℕ
  best_of selected r rest = max_from (key selected) r rest

  -- A run that, until `n` are selected or none is left, selects a remaining index whose key no
  -- remaining index exceeds.
  pub data Greedy (n : ℕ) : List ℕ → List ℕ → List ℕ → Type 0 where
    stop :
        {selected remaining : List ℕ}
        → (remaining ≡ []) ⊎ (n ≤ length selected)
        → Greedy n selected remaining selected
    pick :
        {selected remaining out : List ℕ} (best : ℕ)
        → length selected < n
        → Mem best remaining
        → ((j : ℕ) → Mem j remaining → f.lt (key selected best) (key selected j) ≡ false)
        → Greedy n (selected ++ best ∷ []) (remove best remaining) out
        → Greedy n selected remaining out

  pick-perm :
      (selected : List ℕ) (r : ℕ) (rest : List ℕ)
      → let best = best_of selected r rest in Perm (best ∷ remove best (r ∷ rest)) (r ∷ rest)
  pick-perm selected r rest =
      let best = best_of selected r rest in
      remove-perm best (r ∷ rest) (elem_of_Mem best (r ∷ rest) (max_from-mem (key selected) r rest))

  length-pick :
      (selected : List ℕ) (r : ℕ) (rest : List ℕ)
      → length (remove (best_of selected r rest) (r ∷ rest)) ≡ length rest
  length-pick selected r rest = omega (arith, length-perm (pick-perm selected r rest))

  -- what is selected and what is left over make up what there was
  loop-parts :
      (fuel n : ℕ) (selected remaining : List ℕ)
      → length remaining ≤ fuel
      → length selected ≤ n
      → (left : List ℕ) × Perm (loop fuel n selected remaining ++ left) (selected ++ remaining)
        × (length (loop fuel n selected remaining) ≡ min n (length selected + length remaining))
  unfolding mmr_loop
  loop-parts zero n selected [] h k = ([], Perm.refl _, omega arith)
  loop-parts zero n selected (r ∷ rest) h k = absurd (omega arith)
  loop-parts (suc fuel) n selected [] h k = ([], Perm.refl _, omega arith)
  loop-parts (suc fuel) n selected (r ∷ rest) h k = elim (Bool-cases (ltb (length selected) n)) [
    | inl more ↦
        let best = best_of selected r rest in
        let grown = length-append selected (best ∷ []) in
        let shrunk = length-pick selected r rest in
        let (left, parts, len) =
          loop-parts fuel n (selected ++ best ∷ []) (remove best (r ∷ rest)) (omega arith)
            (ground arith) in
        rw more (
          left,
          Perm.trans (rw (append_assoc selected (best ∷ []) (remove best (r ∷ rest))) at parts)
              (Perm.append_left selected (pick-perm selected r rest)),
          omega arith,
        )
    | inr done ↦ rw done (r ∷ rest, Perm.refl _, ground arith)
  ]

  module _ (laws : IsOrdered W) where
    loop-Greedy :
        (fuel n : ℕ) (selected remaining : List ℕ)
        → length remaining ≤ fuel
        → Greedy n selected remaining (loop fuel n selected remaining)
    unfolding mmr_loop
    loop-Greedy zero n selected [] h = stop (inl refl)
    loop-Greedy zero n selected (r ∷ rest) h = absurd (omega arith)
    loop-Greedy (suc fuel) n selected [] h = stop (inl refl)
    loop-Greedy (suc fuel) n selected (r ∷ rest) h = elim (Bool-cases (ltb (length selected) n)) [
      | inl more ↦
          let best = best_of selected r rest in
          let shrunk = length-pick selected r rest in
          rw more (
            pick best (ltb→lt _ _ more) (max_from-mem (key selected) r rest)
              (max_from-greatest (key selected) laws r rest)
              (loop-Greedy fuel n (selected ++ best ∷ []) (remove best (r ∷ rest)) (omega arith)))
      | inr done ↦ rw done (stop (inr (ground arith)))
    ]

  module _ {ℓ} {A : Type ℓ} where
    abbrev pub all_indices : List A → List ℕ
    all_indices candidates = range_from 0 (length candidates)

    run : ℕ → List A → List ℕ
    run n candidates = loop (length candidates) n [] (all_indices candidates)

    run-parts :
        (n : ℕ) (candidates : List A)
        → (left : List ℕ) × Perm (run n candidates ++ left) (all_indices candidates)
          × (length (run n candidates) ≡ min n (length candidates))
    unfolding run
    run-parts n candidates =
        let size = length-range_from 0 (length candidates) in
        let (left, parts, len) =
          loop-parts (length candidates) n [] (all_indices candidates) (omega arith)
            (omega arith) in
        (left, parts, omega arith)

    run-in_range :
        (n : ℕ) (candidates : List A) (i : ℕ) → Mem i (run n candidates) → i < length candidates
    run-in_range n candidates i m =
        let (left, parts, len) = run-parts n candidates in
        omega (
          arith,
          range_from-lt i 0 (length candidates) ((Perm.mem_iff parts).0 (mem-append_left left m)),
        )

    -- what `mmr_rerank` returns, as a list of candidates
    picked : A → ℕ → List A → List A
    picked d n candidates = map (λ i. get_or candidates i d) (run n candidates)

    mmr_rerank-picked :
        (c : A) (rest : List A) (n : ℕ)
        → mmr_rerank relevance max_sim lam (c ∷ rest) n ≡ some (picked c n (c ∷ rest))
    unfolding mmr_rerank run picked
    mmr_rerank-picked c rest n =
        gather_in_range (c ∷ rest) c (run n (c ∷ rest)) (run-in_range n (c ∷ rest))

    picked-perm :
        (d : A) (n : ℕ) (candidates : List A)
        → (left : List A) × Perm (picked d n candidates ++ left) candidates
          × (length (picked d n candidates) ≡ min n (length candidates))
    unfolding picked
    picked-perm d n candidates =
        let at = λ (i : ℕ). get_or candidates i d in
        let (left, parts, len) = run-parts n candidates in
        let same : length (map at (run n candidates)) ≡ length (run n candidates) =
          length-map _ at in
        let moved : Perm (map at (run n candidates ++ left)) candidates =
          rw (map-get_or-range_from [] candidates d) at (Perm.map at parts) in
        (map at left, rw map-append at moved, omega arith)

    -- `mmr_rerank` never raises an IndexError, and it returns `min(n, len(candidate_ids))` of the
    -- candidates: the result and a list of those left out are together the candidates rearranged.
    pub mmr_rerank-perm :
        (candidates : List A) (n : ℕ)
        → (out left : List A) × (mmr_rerank relevance max_sim lam candidates n ≡ some out)
          × (length out ≡ min n (length candidates))
          × Perm (out ++ left) candidates
    mmr_rerank-perm [] n = ([], [], unfold mmr_rerank in refl, omega arith, Perm.refl [])
    mmr_rerank-perm (c ∷ rest) n =
        let (left, parts, len) = picked-perm c n (c ∷ rest) in
        (picked c n (c ∷ rest), left, mmr_rerank-picked c rest n, len, parts)

    -- `mmr_rerank` is greedy: the indices that it returns the candidates of are those of a run
    -- that, until `n` are selected or none remains, selects a remaining index whose key (the
    -- relevance in the first round, the MMR score against the selected ones later) no remaining
    -- index exceeds.
    pub mmr_rerank-Greedy :
        IsOrdered W
        → (candidates : List A) (n : ℕ)
        → (indices : List ℕ) × Greedy n [] (all_indices candidates) indices
          × (gather candidates indices ≡ mmr_rerank relevance max_sim lam candidates n)
    unfolding mmr_rerank
    mmr_rerank-Greedy laws [] n = ([], stop (inl refl), refl)
    mmr_rerank-Greedy laws (c ∷ rest) n =
        let ids = c ∷ rest in
        let size = length-range_from 0 (length ids) in
        (
          loop (length ids) n [] (all_indices ids),
          loop-Greedy laws (length ids) n [] (all_indices ids) (omega arith),
          refl,
        )
