-- ===== src/Prelude/Perms.antt =====
-- Rearrangements keep native lengths, and what holds of all members.
use mathlib.Core.Path.{◌≡◌, refl, ap, sym, ◌∙◌}
use mathlib.Core.List as L
use mathlib.Core.List.{List, [], ◌∷◌, Perm, Mem, mem-cons}
use mathlib.Core.List.Perm
use mathlib.Core.Logic.Or
use mathlib.Core.Bool.{Bool}
use native.Mathlib.Bridge.{from_ℕ}
use nexusfeed.Prelude.Lists.{length}

module _ {ℓ} {A : Type ℓ} where
  from_ℕ-length : (xs : List A) → from_ℕ (L.length xs) ≡ length xs
  from_ℕ-length [] = refl
  from_ℕ-length (x ∷ xs) = rw (from_ℕ-length xs)

  pub length-perm : {xs ys : List A} → Perm xs ys → length xs ≡ length ys
  length-perm {xs} {ys} p = sym (from_ℕ-length xs) ∙ ap from_ℕ (Perm.length-eq p) ∙ from_ℕ-length ys

  -- what holds of the head and of the rest holds of the list
  pub forall-cons :
      {P : A → Bool} {b : Bool} {x : A} {xs : List A}
      → P x ≡ b
      → ((y : A) → Mem y xs → P y ≡ b)
      → (y : A) → Mem y (x ∷ xs)
      → P y ≡ b
  forall-cons {P} {b} here there y m = Or.elim (hlevel) (mem-cons.0 m) (λ e. rw e here) (there y)
