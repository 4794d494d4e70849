-- ===== src/Experiments/Bandit/Slots.antt =====
-- `EpsilonGreedyBandit.inject_exploration_slots`: which slots of the feed it changes.
use mathlib.Core.List.{Mem, Mem-prop, Perm, mem-cons, mem-cons_self, mem-cons_of_mem, not-mem-nil}
use mathlib.Core.List.Perm
use mathlib.Core.Logic.Or
use nexusfeed.Prelude.{
  ℕ, zero, suc, ◌<◌, ◌≤◌, ◌%◌, ◌≡◌, refl, ap, false, some, List, [], ◌∷◌, ◌++◌, String, length,
  arith, Bool-cases, Option-cases, inl, inr, ◌⊎◌, elem, elem_of_Mem, Mem-filter, min, remove,
  remove-perm, length-perm, get, get_elem?, string_eq,
}
use nexusfeed.Float.{Float, Fraction}
use nexusfeed.Sorting.{max_from, max_from-mem}
use nexusfeed.Experiments.Bandit.{
  Arms, Draw, choice_of, set_last, known_arms, exploit, select_exploration_slot, inject_loop,
  slot_count, available_for, inject_exploration_slots,
}

get_elem?-Mem {ℓ} :
    {A : Type ℓ} (xs : List A) (i : ℕ)
    → i < length xs
    → (x : A) × (get_elem? xs i ≡ some x) × Mem x xs
get_elem?-Mem [] i h = absurd (omega arith)
get_elem?-Mem (x ∷ xs) zero h = (x, refl, mem-cons_self)
get_elem?-Mem (x ∷ xs) (suc i) h =
    let (y, found, m) = get_elem?-Mem xs i (omega arith) in (y, found, mem-cons_of_mem x m)

choice_of_total :
    (c : String) (cs : List String) (n : ℕ)
    → (x : String) × (choice_of (c ∷ cs) n ≡ some x) × Mem x (c ∷ cs)
unfolding choice_of
choice_of_total c cs n = get_elem?-Mem (c ∷ cs) (n % length (c ∷ cs)) (omega arith)

set_last_end {ℓ} :
    {A : Type ℓ} (xs : List A) (x slot : A) → set_last (xs ++ x ∷ []) slot ≡ xs ++ slot ∷ []
unfolding set_last
set_last_end [] x slot = refl
set_last_end (y ∷ []) x slot = refl
set_last_end (y ∷ z ∷ xs) x slot = ap (◌∷◌ y) (set_last_end (z ∷ xs) x slot)

slot_count-pos :
    (xs : List String) (x : String) (fraction : Fraction) → 0 < slot_count (xs ++ x ∷ []) fraction
unfolding slot_count
slot_count-pos [] x fraction = omega arith
slot_count-pos (y ∷ xs) x fraction = omega arith

module _ {W : Type 0} ⦃f : Float W⦄ (arms : Arms W) where
  known_arms-Mem :
      (pool : List String) (e : String × W) → Mem e (known_arms arms pool) → Mem e.0 pool
  unfolding known_arms
  known_arms-Mem [] e m = absurd (not-mem-nil m)
  known_arms-Mem (x ∷ pool) e m = elim (Option-cases (get x arms)) [
    | inl unknown ↦ mem-cons_of_mem x (known_arms-Mem pool e (rw (unknown, known_arms) at m))
    | inr (s, known) ↦
        Or.elim Mem-prop (mem-cons.0 (rw (known, known_arms) at m)) (λ here. rw here mem-cons_self)
          (λ there. mem-cons_of_mem x (known_arms-Mem pool e there))
  ]

  exploit_total :
      (known : List (String × W)) (c : String) (cs : List String) (n : ℕ)
      → ((e : String × W) → Mem e known → Mem e.0 (c ∷ cs))
      → (x : String) × (exploit known (c ∷ cs) n ≡ some x) × Mem x (c ∷ cs)
  unfolding exploit
  exploit_total [] c cs n h = choice_of_total c cs n
  exploit_total (k ∷ known) c cs n h =
      let best = max_from (λ e. e.1) k known in
      (best.0, refl, h best (max_from-mem (λ e. e.1) k known))

  module _ (epsilon : W) where
    -- `select_exploration_slot` returns a member of a non-empty pool
    pub select_exploration_slot_total :
        (draw : Draw W) (c : String) (cs : List String)
        → (x : String) × (select_exploration_slot epsilon arms draw (c ∷ cs) ≡ some x)
          × Mem x (c ∷ cs)
    unfolding select_exploration_slot
    select_exploration_slot_total draw c cs = elim (Bool-cases (f.lt draw.random epsilon)) [
      | inl explore ↦ rw explore (choice_of_total c cs draw.choice)
      | inr stay ↦
          rw stay
            (exploit_total (known_arms arms (c ∷ cs)) c cs draw.choice (known_arms-Mem (c ∷ cs)))
    ]

    module _ (draws : ℕ → Draw W) where
      inject_loop-last :
          (rounds : ℕ) (xs : List String) (x : String) (available : List String)
          → rounds ≤ length available
          → (last : String) × (inject_loop epsilon arms draws rounds (xs ++ x ∷ []) available
              ≡ xs ++ last ∷ [])
            × (((rounds ≡ 0) × (last ≡ x)) ⊎ ((0 < rounds) × Mem last available))
      unfolding inject_loop
      inject_loop-last zero xs x available h = (x, refl, inl (refl, refl))
      inject_loop-last (suc rounds) xs x [] h = absurd (omega arith)
      inject_loop-last (suc rounds) xs x (c ∷ cs) h =
          let (slot, chosen, inside) = select_exploration_slot_total (draws rounds) c cs in
          let taken = remove-perm slot (c ∷ cs) (elem_of_Mem slot (c ∷ cs) inside) in
          let smaller = length-perm taken in
          let (last, same, from) =
            inject_loop-last rounds xs slot (remove slot (c ∷ cs)) (omega arith) in
          (
            last,
            rw (chosen, set_last_end, inject_loop) same,
            inr (omega arith, from_pool slot last inside taken from),
          )
        where
          from_pool :
              (slot last : String)
              → Mem slot (c ∷ cs)
              → Perm (slot ∷ remove slot (c ∷ cs)) (c ∷ cs)
              → ((rounds ≡ 0) × (last ≡ slot)) ⊎ ((0 < rounds) × Mem last (remove slot (c ∷ cs)))
              → Mem last (c ∷ cs)
          from_pool slot last inside taken (inl (_, same)) = rw same inside
          from_pool slot last inside taken (inr (_, m)) =
              (Perm.mem_iff taken).0 (mem-cons_of_mem slot m)

      -- For a non-empty feed the bandit leaves every slot but the last one as it is, however many
      -- exploration slots its fraction asks for. The last slot keeps its item if every candidate of
      -- the pool is already in the feed, and holds a candidate that was not in the feed otherwise.
      pub inject_exploration_slots-last :
          (xs : List String) (x : String) (pool : List String) (fraction : Fraction)
          → (last : String) × (inject_exploration_slots epsilon arms draws
                (xs ++ x ∷ [])
                pool
                fraction
              ≡ xs ++ last ∷ [])
            × (((available_for (xs ++ x ∷ []) pool ≡ []) × (last ≡ x))
                ⊎ (Mem last pool × (elem last (xs ++ x ∷ []) ≡ false)))
      unfolding inject_exploration_slots
      inject_exploration_slots-last xs x pool fraction =
          let feed = xs ++ x ∷ [] in
          let rounds = min (slot_count feed fraction) (length (available_for feed pool)) in
          let (last, same, from) =
            inject_loop-last rounds xs x (available_for feed pool) (omega arith) in
          (last, same, by_pool last (available_for feed pool) refl from)
        where
          by_pool :
              (last : String) (available : List String)
              → available_for (xs ++ x ∷ []) pool ≡ available
              → ((min
                      (slot_count (xs ++ x ∷ []) fraction)
                      (length (available_for (xs ++ x ∷ []) pool))
                    ≡ 0)
                  × (last ≡ x))
                ⊎ ((0
                      < min
                          (slot_count (xs ++ x ∷ []) fraction)
                          (length (available_for (xs ++ x ∷ []) pool)))
                    × Mem last (available_for (xs ++ x ∷ []) pool))
              → ((available_for (xs ++ x ∷ []) pool ≡ []) × (last ≡ x))
                ⊎ (Mem last pool × (elem last (xs ++ x ∷ []) ≡ false))
          by_pool last [] none_left (inl (_, kept)) = inl (none_left, kept)
          by_pool last (c ∷ cs) some_left (inl (no_round, _)) =
              absurd (omega (arith, ap length some_left, slot_count-pos xs x fraction))
          by_pool last available e (inr (_, m)) =
              let (inside, fresh) = Mem-filter _ pool m in inr (inside, ground arith)

      -- an empty feed stays empty
      pub inject_exploration_slots-nil :
          (pool : List String) (fraction : Fraction)
          → inject_exploration_slots epsilon arms draws [] pool fraction ≡ []
      unfolding inject_exploration_slots slot_count
      inject_exploration_slots-nil pool fraction =
          let none_left : min 0 (length (available_for [] pool)) ≡ 0 = omega arith in rw none_left
