-- ===== src/Retrieval/CandidateGenerator/Candidates.antt =====
-- The candidates that `retrieve` returns.
use mathlib.Core.List.{
  List, [], ◌∷◌, ◌++◌, map, map-append, append_assoc, append-nil, mem-append_left, mem-append_right,
  Mem, Mem-prop, mem-append, Nodup, Nodup-cons, Nodup-nil, Nodup-append, not-mem-nil, mem-cons,
  mem-cons_self, mem-cons_of_mem,
}
use mathlib.Core.Logic.Or
use nexusfeed.Prelude.{
  ◌+◌, ◌≤◌, ◌≡◌, refl, sym, ap, ◌∙◌, inl, inr, Option, String, length, arith, elem, take,
  Bool-cases, Mem_of_elem, not-Mem_of_elem, length-append, length-take, length-map, string_eq,
}
use nexusfeed.Float.{Float, zero_score}
use nexusfeed.World.{ok}
use nexusfeed.Retrieval.CandidateGenerator.{
  or_nil, forced_limit, trending_limit, append_unseen, ids_of, retrieve,
}

elem-append_one : (a x : String) (xs : List String) → elem a (xs ++ x ∷ []) ≡ elem a (x ∷ xs)
unfolding elem
elem-append_one a x [] = refl
elem-append_one a x (y ∷ xs) = let rest = elem-append_one a x xs in ground arith

pub firsts-pairs :
    {W : Type 0} (z : W) (xs : List String)
    → map (λ (e : String × W). e.0) (map (λ i. (i, z)) xs) ≡ xs
firsts-pairs z [] = refl
firsts-pairs z (x ∷ xs) = ap (◌∷◌ x) (firsts-pairs z xs)

module _ {W : Type 0} ⦃f : Float W⦄ where
  abbrev pub without_score : String → String × W
  without_score item_id = (item_id, zero_score)

  -- What a list of candidates becomes when the wanted ids are added to it: the candidates stay in
  -- front, with their scores; behind them stand ids that are wanted and that were not there, each
  -- once, with the score 0.0; and all that is wanted is there.
  pub record Extended (wanted : List String) (before after : List (String × W)) : Type 0 where
    pub added : List String
    pub appended : after ≡ before ++ map without_score added
    pub bounded : length added ≤ length wanted
    pub asked : (x : String) → Mem x added → Mem x wanted
    pub complete : (x : String) → Mem x wanted → Mem x (ids_of after)
    pub fresh : (x : String) → Mem x added → ¬ Mem x (ids_of before)
    pub once : Nodup added

  -- `seen` is the set of the ids in `results`
  abbrev Agrees : List (String × W) → List String → Type 0
  Agrees results seen = (x : String) → elem x seen ≡ elem x (ids_of results)

  kept-Mem :
      (before : List (String × W)) {after : List (String × W)} (added : List String) (x : String)
      → after ≡ before ++ map without_score added
      → Mem x (ids_of before)
      → Mem x (ids_of after)
  kept-Mem before {after} added x e m =
      rw (e, map-append (λ e. e.0) before (map without_score added))
        (mem-append_left (ids_of (map without_score added)) m)

  Extended-known :
      (x : String) (wanted : List String) {before after : List (String × W)}
      → Mem x (ids_of before)
      → Extended wanted before after
      → Extended (x ∷ wanted) before after
  Extended-known x wanted {before} {after} known t = record {
    added = t.added;
    appended = t.appended;
    bounded = omega (arith, t.bounded);
    asked = λ y m. mem-cons_of_mem x (t.asked y m);
    complete = λ y m.
        Or.elim Mem-prop (mem-cons.0 m)
          (λ here. rw here (kept-Mem before t.added x t.appended known)) (t.complete y);
    fresh = t.fresh;
    once = t.once;
  }

  ids_of-append :
      (before : List (String × W)) (x : String)
      → ids_of (before ++ without_score x ∷ []) ≡ ids_of before ++ x ∷ []
  ids_of-append before x = map-append (λ e. e.0) before (without_score x ∷ [])

  Extended-new :
      (x : String) (wanted : List String) {before after : List (String × W)}
      → ¬ Mem x (ids_of before)
      → Extended wanted (before ++ without_score x ∷ []) after
      → Extended (x ∷ wanted) before after
  Extended-new x wanted {before} {after} fresh t = record {
    added = x ∷ t.added;
    appended = t.appended ∙ append_assoc before (without_score x ∷ []) (map without_score t.added);
    bounded = omega (arith, t.bounded);
    asked = λ y m.
        Or.elim Mem-prop (mem-cons.0 m) (λ here. rw here mem-cons_self)
          (λ there. mem-cons_of_mem x (t.asked y there));
    complete = λ y m.
        Or.elim Mem-prop (mem-cons.0 m)
          (λ here. rw here (
            kept-Mem (before ++ without_score x ∷ []) t.added x t.appended
              (rw (ids_of-append before x) (mem-append_right (ids_of before) mem-cons_self))))
          (t.complete y);
    fresh = λ y m.
        Or.elim (hlevel) (mem-cons.0 m) (λ here. rw here fresh)
          (λ there k. t.fresh y there (rw (ids_of-append before x) (mem-append_left (x ∷ []) k)));
    once = Nodup-cons.1 (
      λ m.
          t.fresh x m
            (rw (ids_of-append before x) (mem-append_right (ids_of before) mem-cons_self)),
      t.once,
    );
  }

  Agrees-new :
      (results : List (String × W)) (seen : List String) (x : String)
      → Agrees results seen
      → Agrees (results ++ without_score x ∷ []) (x ∷ seen)
  unfolding elem
  Agrees-new results seen x agrees a =
      let here = elem-append_one a x (ids_of results) in
      let old = agrees a in rw (ids_of-append results x) (ground arith)

  append_unseen-Extended :
      (wanted : List String) (results : List (String × W)) (seen : List String)
      → Agrees results seen
      → Extended wanted results (append_unseen wanted results seen).0
        × Agrees (append_unseen wanted results seen).0 (append_unseen wanted results seen).1
  unfolding append_unseen
  append_unseen-Extended [] results seen agrees = (
    record {
      added = [];
      appended = sym (append-nil results);
      bounded = omega arith;
      asked = λ x m. m;
      complete = λ x m. absurd (not-mem-nil m);
      fresh = λ x m. absurd (not-mem-nil m);
      once = Nodup-nil;
    },
    agrees,
  )
  append_unseen-Extended (x ∷ wanted) results seen agrees = elim (Bool-cases (elem x seen)) [
    | inl known ↦
        let (t, after) = append_unseen-Extended wanted results seen agrees in
        rw (append_unseen, known)
          (
            Extended-known x wanted (Mem_of_elem x (ids_of results) (sym (agrees x) ∙ known)) t,
            after,
          )
    | inr fresh ↦
        let (t, after) =
          append_unseen-Extended wanted (results ++ without_score x ∷ []) (x ∷ seen)
            (Agrees-new results seen x agrees) in
        rw (append_unseen, fresh)
          (
            Extended-new x wanted (not-Mem_of_elem x (ids_of results) (sym (agrees x) ∙ fresh)) t,
            after,
          )
  ]

  added-Mem :
      {wanted : List String} {before after : List (String × W)} (s : Extended wanted before after)
      (y : String)
      → Mem y s.added
      → Mem y (ids_of after)
  added-Mem {wanted} {before} {after} s y m =
      rw
        (
          s.appended,
          map-append (λ (e : String × W). e.0) before (map without_score s.added),
          firsts-pairs {W = W} zero_score s.added,
        )
        (mem-append_right (ids_of before) m)

  Extended-trans :
      {v w : List String} {a b c : List (String × W)}
      → Extended v a b
      → Extended w b c
      → Extended (v ++ w) a c
  Extended-trans {v} {w} {a} {b} {c} s t = record {
    added = s.added ++ t.added;
    appended =
        t.appended
        ∙ ap (λ z. z ++ map without_score t.added) s.appended
        ∙ append_assoc a (map without_score s.added) (map without_score t.added)
        ∙ ap (λ z. a ++ z) (sym (map-append without_score s.added t.added));
    bounded = omega (arith, s.bounded, t.bounded, length-append s.added t.added, length-append v w);
    asked = λ x m.
        Or.elim Mem-prop (mem-append.0 m) (λ l. mem-append_left w (s.asked x l))
          (λ r. mem-append_right v (t.asked x r));
    complete = λ x m.
        Or.elim Mem-prop (mem-append.0 m) (λ l. kept-Mem b t.added x t.appended (s.complete x l))
          (t.complete x);
    fresh = λ x m.
        Or.elim (hlevel) (mem-append.0 m) (s.fresh x)
          (λ r k. t.fresh x r (kept-Mem a s.added x s.appended k));
    once = Nodup-append.1 (s.once, t.once, λ y m k. t.fresh y k (added-Mem s y m));
  }

  Extended-length :
      {wanted : List String} {before after : List (String × W)}
      → Extended wanted before after
      → length after ≤ length before + length wanted
  Extended-length {wanted} {before} {after} t = omega (
    arith,
    ap length t.appended,
    length-append before (map without_score t.added),
    length-map t.added without_score,
    t.bounded,
  )

  -- When the search returns, `retrieve` returns too. Its result is that of the search, extended by
  -- the first five ids of the forced exploration and the first ten trending ids: what the search
  -- found comes first, with its scores; what is added has the score 0.0, was asked for, was not found
  -- by the search, and is added once; and each of the ids asked for is among the candidates.
  pub retrieve-Extended :
      (results : List (String × W)) (trending forced : Option (List String))
      → (candidates : List (String × W)) × (retrieve (ok results) trending forced ≡ ok candidates)
        × Extended
            (take forced_limit (or_nil forced) ++ take trending_limit (or_nil trending))
            results
            candidates
        × (length candidates ≤ length results + 15)
  unfolding retrieve
  retrieve-Extended results trending forced =
      let explored = take forced_limit (or_nil forced) in
      let trend = take trending_limit (or_nil trending) in
      let (s, agrees) = append_unseen-Extended explored results (ids_of results) (λ x. refl) in
      let (t, _) = append_unseen-Extended trend _ _ agrees in
      let all = Extended-trans s t in
      (
        _,
        refl,
        all,
        omega (
          arith,
          Extended-length all,
          length-append explored trend,
          length-take forced_limit (or_nil forced),
          length-take trending_limit (or_nil trending),
        ),
      )
