-- ===== src/Prelude/Membership.antt =====
-- Python's `in` on lists and sets, `list.remove`, and dictionaries as association lists.
use mathlib.Core.Path.{◌≡◌, refl, ap}
use mathlib.Core.Logic.{inl, inr}
use mathlib.Core.Logic.Or
use mathlib.Core.HLevel.{⊥_prop}
use mathlib.Core.Bool.{Bool, true, false, not}
use mathlib.Core.List.{
  List, [], ◌∷◌, ◌++◌, map, Mem, Mem-prop, Perm, perm_middle, not-mem-nil, mem-cons, mem-cons_self,
  mem-cons_of_mem,
}
use mathlib.Core.List.Perm
use native.Mathlib.Omega.{arith}
use nexusfeed.Prelude.Tests.{if◌then◌else◌, Bool-cases}
use Prim.Native.Nat.{ℕ, zero, suc}
use nexusfeed.Prelude.Lists.{take}
use nexusfeed.Prelude.Classes.{Eq, ◌==◌}

module _ {ℓ} {A : Type ℓ} ⦃e : Eq A⦄ where
  -- `a in xs`
  unfoldable pub elem : A → List A → Bool
  elem a [] = false
  elem a (x ∷ xs) = if x == a then true else elem a xs

  -- `xs.remove(a)`: drops the first occurrence
  unfoldable pub remove : A → List A → List A
  remove a [] = []
  remove a (x ∷ xs) = if x == a then xs else x ∷ remove a xs

  pub Mem_of_elem : (a : A) (xs : List A) → elem a xs ≡ true → Mem a xs
  unfolding elem
  Mem_of_elem a [] h = absurd (cc)
  Mem_of_elem a (x ∷ xs) h = elim (Bool-cases (x == a)) [
    | inl same ↦ rw ((e.beq_iff x a).0 same) mem-cons_self
    | inr other ↦ mem-cons_of_mem x (Mem_of_elem a xs (ground arith))
  ]

  pub not-Mem_of_elem : (a : A) (xs : List A) → elem a xs ≡ false → ¬ Mem a xs
  unfolding elem
  not-Mem_of_elem a [] h = not-mem-nil
  not-Mem_of_elem a (x ∷ xs) h = λ m.
      Or.elim ⊥_prop (mem-cons.0 m) (λ (p : a ≡ x). ground (arith, (e.beq_iff x a).1))
        (not-Mem_of_elem a xs (ground arith))

  pub elem_of_Mem : (a : A) (xs : List A) → Mem a xs → elem a xs ≡ true
  elem_of_Mem a xs m = elim (Bool-cases (elem a xs)) [
    | inl found ↦ found
    | inr missing ↦ absurd (not-Mem_of_elem a xs missing m)
  ]

  -- what is removed and what is left make up the list
  pub remove-perm : (a : A) (xs : List A) → elem a xs ≡ true → Perm (a ∷ remove a xs) xs
  unfolding elem remove
  remove-perm a [] h = absurd (cc)
  remove-perm a (x ∷ xs) h = elim (Bool-cases (x == a)) [
    | inl same ↦ rw (same, (e.beq_iff x a).0 same) (Perm.refl (a ∷ xs))
    | inr other ↦
        rw other
          (Perm.trans (Perm.swap x a (remove a xs)) (Perm.cons x (remove-perm a xs (ground arith))))
  ]

module _ {ℓ} {A : Type ℓ} where
  -- `[x for x in xs if test(x)]`
  unfoldable pub filter : (A → Bool) → List A → List A
  filter test [] = []
  filter test (x ∷ xs) = if test x then x ∷ filter test xs else filter test xs

  -- the members that pass and those that do not are together the list
  pub filter-perm :
      (test : A → Bool) (xs : List A) → Perm (filter test xs ++ filter (λ x. not (test x)) xs) xs
  unfolding filter
  filter-perm test [] = Perm.refl []
  filter-perm test (x ∷ xs) = elim (Bool-cases (test x)) [
    | inl pass ↦ rw pass (Perm.cons x (filter-perm test xs))
    | inr fail ↦ rw fail (Perm.trans (perm_middle _ _) (Perm.cons x (filter-perm test xs)))
  ]

  pub Mem-filter :
      (test : A → Bool) (xs : List A) {x : A} → Mem x (filter test xs) → Mem x xs × (test x ≡ true)
  unfolding filter
  Mem-filter test [] m = absurd (not-mem-nil m)
  Mem-filter test (y ∷ xs) {x} m = elim (Bool-cases (test y)) [
    | inl pass ↦
        Or.elim (hlevel) (mem-cons.0 (rw pass at m)) (λ e. rw e (mem-cons_self, pass))
          (λ rest.
            let (there, passes) = Mem-filter test xs rest in (mem-cons_of_mem y there, passes))
    | inr fail ↦
        let (there, passes) = Mem-filter test xs (rw fail at m) in (mem-cons_of_mem y there, passes)
  ]

  pub filter-Mem :
      (test : A → Bool) (xs : List A) {x : A} → Mem x xs → test x ≡ true → Mem x (filter test xs)
  unfolding filter
  filter-Mem test [] m h = absurd (not-mem-nil m)
  filter-Mem test (y ∷ xs) {x} m h = elim (Bool-cases (test y)) [
    | inl pass ↦ rw pass (
        Or.elim Mem-prop (mem-cons.0 m) (λ here. rw here mem-cons_self)
          (λ there. mem-cons_of_mem y (filter-Mem test xs there h)))
    | inr fail ↦ rw fail (
        Or.elim Mem-prop (mem-cons.0 m) (λ (here : x ≡ y). absurd (ground (arith, ap test here)))
          (λ there. filter-Mem test xs there h))
  ]

pub Mem-take {ℓ} : {A : Type ℓ} (n : ℕ) (xs : List A) {x : A} → Mem x (take n xs) → Mem x xs
Mem-take zero xs m = absurd (not-mem-nil m)
Mem-take (suc n) [] m = absurd (not-mem-nil m)
Mem-take (suc n) (y ∷ xs) m =
    Or.elim Mem-prop (mem-cons.0 m) (λ e. rw e mem-cons_self)
      (λ rest. mem-cons_of_mem y (Mem-take n xs rest))

module _ {ℓ κ} {A : Type ℓ} {B : Type κ} where
  pub map-filter :
      (f : A → B) (test : B → Bool) (xs : List A)
      → map f (filter (λ x. test (f x)) xs) ≡ filter test (map f xs)
  unfolding filter
  map-filter f test [] = refl
  map-filter f test (x ∷ xs) = ground (arith, map-filter f test xs)
