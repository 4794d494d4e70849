-- ===== src/Prelude/Dict.antt =====
-- Dictionaries as association lists in insertion order: `d.get(k)`, `d[k] = v`, and the
-- comprehension `{key(x): x for x in xs}`, in which a later entry wins.
use mathlib.Core.Path.{◌≡◌, refl, ap₂}
use mathlib.Core.Logic.{inl, inr}
use mathlib.Core.Option.{Option, none, some}
use mathlib.Core.List.{
  List, [], ◌∷◌, map, Mem, Mem-prop, Nodup, Nodup-cons, not-mem-nil, mem-cons_self, mem-cons_of_mem,
  forall_mem-cons,
}
use mathlib.Core.Bool.{true, false}
use native.Mathlib.Omega.{arith}
use nexusfeed.Prelude.Tests.{if◌then◌else◌, Bool-cases}
use nexusfeed.Prelude.Classes.{Eq, ◌==◌, beq_refl}
use nexusfeed.Prelude.Membership.{elem, elem_of_Mem, Mem_of_elem}

module _ {ℓ κ} {K : Type ℓ} {V : Type κ} ⦃e : Eq K⦄ where
  unfoldable pub get : K → List (K × V) → Option V
  get k [] = none
  get k ((j, v) ∷ d) = if j == k then some v else get k d

  -- `d.get(k, default)`
  unfoldable pub get_default : K → V → List (K × V) → V
  unfolding get
  get_default k v d = elim (get k d) [ none ↦ v | some w ↦ w ]

  unfoldable pub put : K → V → List (K × V) → List (K × V)
  put k v [] = (k, v) ∷ []
  put k v ((j, w) ∷ d) = if j == k then (k, v) ∷ d else (j, w) ∷ put k v d

  pub get-put :
      (k j : K) (v : V) (d : List (K × V))
      → get j (put k v d) ≡ (if k == j then some v else get j d)
  unfolding get put
  get-put k j v [] = refl
  get-put k j v ((i, w) ∷ d) =
      ground (arith, e.beq_iff k j, e.beq_iff i k, e.beq_iff i j, get-put k j v d)

  pub get-put_self : (k : K) (v : V) (d : List (K × V)) → get k (put k v d) ≡ some v
  get-put_self k v d = rw (get-put k k v d, beq_refl k)

  unfoldable pub index_into : (V → K) → List (K × V) → List V → List (K × V)
  index_into key d [] = d
  index_into key d (x ∷ xs) = index_into key (put (key x) x d) xs

  -- `{key(x): x for x in xs}`
  unfoldable pub index_by : (V → K) → List V → List (K × V)
  unfolding index_into
  index_by key xs = index_into key [] xs

  -- a key that is not indexed again keeps its entry
  pub index_into_ne :
      (key : V → K) (k : K) (xs : List V) (d : List (K × V))
      → elem k (map key xs) ≡ false
      → get k (index_into key d xs) ≡ get k d
  unfolding index_into elem
  index_into_ne key k [] d h = refl
  index_into_ne key k (x ∷ xs) d h =
      ground (arith, index_into_ne key k xs (put (key x) x d), get-put (key x) k x d)

  index_into_found :
      (key : V → K) (k : K) (xs : List V) (d : List (K × V))
      → elem k (map key xs) ≡ true
      → (x : V) × (get k (index_into key d xs) ≡ some x) × (key x ≡ k) × Mem x xs
  unfolding index_into elem
  index_into_found key k [] d h = absurd (cc)
  index_into_found key k (x ∷ xs) d h = elim (Bool-cases (elem k (map key xs))) [
    | inl later ↦
        let (y, found, at, there) = index_into_found key k xs (put (key x) x d) later in
        (y, found, at, mem-cons_of_mem x there)
    | inr last ↦
        let here : (key x == k) ≡ true = ground arith in
        (
          x,
          rw (index_into_ne key k xs (put (key x) x d) last, get-put (key x) k x d, here),
          (e.beq_iff (key x) k).0 here,
          mem-cons_self,
        )
  ]

  -- every key of the list is found, with an entry that has this key
  pub index_by_found :
      (key : V → K) (k : K) (xs : List V)
      → elem k (map key xs) ≡ true
      → (x : V) × (get k (index_by key xs) ≡ some x) × (key x ≡ k) × Mem x xs
  unfolding index_by
  index_by_found key k xs = index_into_found key k xs []

  pub get_default-put :
      (k j : K) (w v : V) (d : List (K × V))
      → get_default j v (put k w d) ≡ (if k == j then w else get_default j v d)
  unfolding get_default
  get_default-put k j w v d = ground (arith, get-put k j w d)

  -- `[d[k] for k in ks]`; `none` is a KeyError
  unfoldable pub lookup_all : List (K × V) → List K → Option (List V)
  unfolding get
  lookup_all d [] = some []
  lookup_all d (k ∷ ks) = elim (get k d) [
    | none ↦ none
    | some v ↦ elim (lookup_all d ks) [ none ↦ none | some vs ↦ some (v ∷ vs) ]
  ]

  -- what `[d[k] for k in ks]` gives when `d` indexes `xs` and every `k` is the key of a member
  pub lookup_all-index_by :
      (key : V → K) (xs : List V) (ks : List K)
      → ((k : K) → Mem k ks → Mem k (map key xs))
      → (vs : List V) × (lookup_all (index_by key xs) ks ≡ some vs)
        × (map key vs ≡ ks)
        × ((v : V) → Mem v vs → Mem v xs)
  unfolding lookup_all
  lookup_all-index_by key xs [] h = ([], refl, refl, λ v m. absurd (not-mem-nil m))
  lookup_all-index_by key xs (k ∷ ks) h =
      let (x, found, at, here) = index_by_found key k xs (elem_of_Mem k _ (h k mem-cons_self)) in
      let (vs, rest, keys, members) =
        lookup_all-index_by key xs ks (λ j m. h j (mem-cons_of_mem k m)) in
      (
        x ∷ vs,
        rw (found, rest, lookup_all),
        ap₂ ◌∷◌ at keys,
        (forall_mem-cons (λ v. Mem-prop)).1 (here, members),
      )

  lookup_all-index_into :
      (key : V → K) (xs : List V) (d : List (K × V))
      → Nodup (map key xs)
      → lookup_all (index_into key d xs) (map key xs) ≡ some xs
  unfolding lookup_all index_into
  lookup_all-index_into key [] d h = refl
  lookup_all-index_into key (x ∷ xs) d h =
      let (fresh, distinct) = Nodup-cons.0 h in
      let rest = lookup_all-index_into key xs (put (key x) x d) distinct in
      let absent : elem (key x) (map key xs) ≡ false =
        elim (Bool-cases (elem (key x) (map key xs))) [
          | inl e ↦ absurd (fresh (Mem_of_elem _ _ e))
          | inr e ↦ e
        ] in
      rw (
        index_into_ne key (key x) xs (put (key x) x d) absent,
        get-put_self (key x) x d,
        rest,
        lookup_all,
      )

  -- with distinct keys, looking up the keys of a list in its index gives the list
  pub lookup_all_self :
      (key : V → K) (xs : List V)
      → Nodup (map key xs)
      → lookup_all (index_by key xs) (map key xs) ≡ some xs
  unfolding index_by
  lookup_all_self key xs h = lookup_all-index_into key xs [] h

  get_of_elem :
      (k : K) (d : List (K × V)) → elem k (map (λ e. e.0) d) ≡ true → (v : V) × (get k d ≡ some v)
  unfolding get elem
  get_of_elem k [] h = absurd (cc)
  get_of_elem k ((j, w) ∷ d) h = elim (Bool-cases (j == k)) [
    | inl same ↦ (w, rw same)
    | inr other ↦ rw other (get_of_elem k d (ground arith))
  ]

  -- no KeyError where every key is in the dictionary
  pub lookup_all_of_elem :
      (d : List (K × V)) (ks : List K)
      → ((k : K) → Mem k ks → elem k (map (λ e. e.0) d) ≡ true)
      → (vs : List V) × (lookup_all d ks ≡ some vs)
  unfolding lookup_all
  lookup_all_of_elem d [] h = ([], refl)
  lookup_all_of_elem d (k ∷ ks) h =
      let (v, found) = get_of_elem k d (h k mem-cons_self) in
      let (vs, rest) = lookup_all_of_elem d ks (λ j m. h j (mem-cons_of_mem k m)) in
      (v ∷ vs, rw (found, rest, lookup_all))
