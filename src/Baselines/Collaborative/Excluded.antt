-- ===== src/Baselines/Collaborative/Excluded.antt =====
-- What `recommend` returns.
use mathlib.Core.List.{Mem, mem-append, mem-cons, not-mem-nil}
use mathlib.Core.Logic.Or
use mathlib.Core.HLevel.{⊥_prop}
use nexusfeed.Prelude.{
  ℕ, ◌≤◌, ◌<◌, ◌≡◌, subst, max, false, some, List, [], ◌∷◌, ◌++◌, String, length, length-append,
  leb, elem, get, string_eq, nat_eq, Bool-cases, inl, inr, arith, Option-cases, not-Mem_of_elem,
}
use mathlib.Core.Option.{some-injective}
use nexusfeed.Baselines.Collaborative.{
  CollaborativeFiltering, collect, recommend, id_by_index, ranked_for,
}

-- None of the items is excluded, and there are at most `n` of them, or one if `n` is 0.
pub record IsAllowed (exclude : List String) (n : ℕ) (results : List String) : Type 0 where
  pub few : length results ≤ max n 1
  pub allowed : (item_id : String) → Mem item_id exclude → ¬ Mem item_id results

extended :
    (exclude : List String) (results : List String) (x : String)
    → ((item_id : String) → Mem item_id exclude → ¬ Mem item_id results)
    → elem x exclude ≡ false
    → (item_id : String) → Mem item_id exclude
    → ¬ Mem item_id (results ++ x ∷ [])
extended exclude results x before fresh item_id out m =
    Or.elim ⊥_prop (mem-append.0 m) (before item_id out) (λ last.
      Or.elim ⊥_prop (mem-cons.0 last)
        (λ (e : item_id ≡ x). not-Mem_of_elem x exclude fresh (subst (λ y. Mem y exclude) e out))
        not-mem-nil)

collect-IsAllowed :
    (by_index : List (ℕ × String)) (exclude : List String) (n : ℕ) (found : List String)
    (indices : List ℕ) (results : List String)
    → length found < max n 1
    → ((item_id : String) → Mem item_id exclude → ¬ Mem item_id found)
    → collect by_index exclude n found indices ≡ some results
    → IsAllowed exclude n results
unfolding collect
collect-IsAllowed by_index exclude n found [] results room allowed h =
    subst (IsAllowed exclude n) (some-injective _ _ h)
      (record { few = omega arith; allowed = allowed })
collect-IsAllowed by_index exclude n found (idx ∷ indices) results room allowed h =
    elim (Option-cases (get idx by_index)) [
      | inl missing ↦ absurd (ground arith)
      | inr (x, here) ↦ elim (Bool-cases (elem x exclude)) [
        | inl out ↦
            collect-IsAllowed by_index exclude n found indices results room allowed
              (rw (here, collect, out) at h)
        | inr fresh ↦
            let size = length-append found (x ∷ []) in
            let more = extended exclude found x allowed fresh in
            elim (Bool-cases (leb n (length (found ++ x ∷ [])))) [
              | inl full ↦
                  subst (IsAllowed exclude n)
                    (some-injective _ _ (rw (here, collect, fresh, full) at h))
                    (record { few = omega arith; allowed = more })
              | inr short ↦
                  collect-IsAllowed by_index exclude n (found ++ x ∷ []) indices results
                    (ground arith) more (rw (here, collect, fresh, short) at h)
            ]
      ]
    ]

module _ {F X : Type 0} (svd : X → (k : ℕ) → F) (argsort : F → (user : ℕ) → List ℕ) where
  -- If `recommend` returns, none of the items is excluded, and there are at most `n`, except that one
  -- item may be returned where `n` is 0: the loop looks at the length after it has added an item.
  pub recommend-IsAllowed :
      (self : CollaborativeFiltering F) (user_id : String) (n : ℕ) (exclude results : List String)
      → recommend svd argsort self user_id n exclude ≡ some results
      → IsAllowed exclude n results
  unfolding recommend
  recommend-IsAllowed self user_id n exclude results h =
      elim (Option-cases (ranked_for svd argsort self.factors (get user_id self.user_index))) [
        | inl unknown ↦
            subst (IsAllowed exclude n) (some-injective _ _ (rw (unknown, recommend) at h))
              (record { few = omega arith; allowed = λ item_id out. not-mem-nil })
        | inr (indices, ranked) ↦
            collect-IsAllowed (id_by_index self.item_index []) exclude n [] indices results
              (omega arith) (λ item_id out. not-mem-nil) (rw (ranked, recommend) at h)
      ]
