-- ===== src/Models/Registry/Rollback.antt =====
-- What `rollback` chooses, and what a second one does.
use mathlib.Core.List.{Mem, mem-cons, mem-cons_self, mem-cons_of_mem, not-mem-nil, Mem-prop}
use mathlib.Core.Logic.Or
use native.Mathlib.Bridge.{le_prop}
use mathlib.Core.Option.{some-injective}
use nexusfeed.Prelude.{
  ℕ, ◌≤◌, ◌≡◌, refl, sym, ◌∙◌, true, none, some, List, [], ◌∷◌, map, String, arith, Option,
  Bool-cases, inl, inr, filter, nat_eq, string_eq, ltb, ltb→lt, ap, beq_refl,
}
use nexusfeed.World.{Result, ok, raise}
use nexusfeed.Models.Mlflow.{Mlflow, Version, Stage, stage_eq, Laws, moved, pure, and_then, ◌>>=◌}
use nexusfeed.Models.Registry.{is_in, newest, newest_of, rollback, restore}

abbrev pub archived : List Version → List Version
archived vs = filter (is_in Stage.archived) vs

-- `previous` is archived, and no archived version has a greater number
pub record IsNewestArchived (vs : List Version) (previous : Version) : Type 0 where
  pub there : Mem previous (archived vs)
  pub greatest : (w : Version) → Mem w (archived vs) → w.version ≤ previous.version

newest-greatest :
    (v : Version) (vs : List Version) (w : Version)
    → Mem w (v ∷ vs)
    → w.version ≤ (newest v vs).version
unfolding newest
newest-greatest v [] w m =
    Or.elim le_prop (mem-cons.0 m) (λ e. rw e (omega arith)) (λ rest. absurd (not-mem-nil rest))
newest-greatest v (x ∷ vs) w m = elim (Bool-cases (ltb v.version x.version)) [
  | inl less ↦
      rw (less, newest)
        (let top = newest-greatest x vs x mem-cons_self in
          let below = ltb→lt _ _ less in
          Or.elim le_prop (mem-cons.0 m) (λ e. rw e (omega arith)) (newest-greatest x vs w))
  | inr other ↦
      rw (other, newest)
        (let top = newest-greatest v vs v mem-cons_self in
          let above : x.version ≤ v.version = ground arith in
          Or.elim le_prop (mem-cons.0 m) (λ e. rw e top)
            (λ rest.
              Or.elim le_prop (mem-cons.0 rest) (λ (e : w ≡ x). rw e (omega arith))
                (λ later. newest-greatest v vs w (mem-cons_of_mem v later))))
]

newest-mem : (v : Version) (vs : List Version) → Mem (newest v vs) (v ∷ vs)
unfolding newest
newest-mem v [] = mem-cons_self
newest-mem v (x ∷ vs) = elim (Bool-cases (ltb v.version x.version)) [
  | inl less ↦ rw (less, newest) (mem-cons_of_mem v (newest-mem x vs))
  | inr other ↦
      rw (other, newest)
        (Or.elim Mem-prop (mem-cons.0 (newest-mem v vs)) (λ e. rw e mem-cons_self)
          (λ later. mem-cons_of_mem v (mem-cons_of_mem x later)))
]

newest_of-mem :
    (xs : List Version) (previous : Version)
    → newest_of xs ≡ some previous
    → Mem previous xs × ((w : Version) → Mem w xs → w.version ≤ previous.version)
unfolding newest_of
newest_of-mem [] previous h = absurd (cc)
newest_of-mem (v ∷ vs) previous h =
    let e : newest v vs ≡ previous = some-injective _ _ h in
    rw (← e) (newest-mem v vs, newest-greatest v vs)

newest_of-none : (xs : List Version) → newest_of xs ≡ none → xs ≡ []
unfolding newest_of
newest_of-none [] h = refl
newest_of-none (v ∷ vs) h = absurd (cc)

-- How `rollback` ends, from the versions before and after it and its result.
abbrev pub RolledBack : (before after : List Version) → Option ℕ → Type 0
RolledBack before after none = (archived before ≡ []) × (after ≡ before)
RolledBack before after (some n) =
    (previous : Version) × (n ≡ previous.version)
    × IsNewestArchived before previous
    × (after ≡ map (moved n Stage.production true) before)

module _ (mlflow : Mlflow) (laws : Laws mlflow) (name : String) where
  transitioned-RolledBack :
      (s : mlflow.Server) (vs : List Version) (previous : Version) (result : Option ℕ)
      → IsNewestArchived vs previous
      → vs ≡ laws.versions s name
      → (p : mlflow.Server × Result (Unit {0}))
      → mlflow.transition_model_version_stage name previous.version Stage.production true s ≡ p
      → (and_then (λ _. pure (some previous.version)) p).1 ≡ ok result
      → RolledBack vs (laws.versions (and_then (λ _. pure (some previous.version)) p).0 name) result
  transitioned-RolledBack s vs previous result newest same (s', raise e) here h = absurd (cc)
  transitioned-RolledBack s vs previous none newest same (s', ok u) here h = absurd (cc)
  transitioned-RolledBack s vs previous (some n) newest same (s', ok u) here h =
      let e : n ≡ previous.version = cc in
      let moves =
        laws.transitioned s name previous.version Stage.production true name (ap (λ p. p.1) here) in
      (
        previous,
        e,
        newest,
        ap (λ (p : mlflow.Server × Result (Unit {0})). laws.versions p.0 name) (sym here)
            ∙ (moves ∙ rw (beq_refl name, same, e) refl),
      )

  restore-RolledBack :
      (s : mlflow.Server) (vs : List Version) (o result : Option _)
      → newest_of (archived vs) ≡ o
      → vs ≡ laws.versions s name
      → (restore mlflow name o s).1 ≡ ok result
      → RolledBack vs (laws.versions (restore mlflow name o s).0 name) result
  unfolding restore ◌>>=◌
  restore-RolledBack s vs none none empty same h = (newest_of-none _ empty, sym same)
  restore-RolledBack s vs none (some n) empty same h = absurd (cc)
  restore-RolledBack s vs (some previous) result found same h =
      let (there, greatest) = newest_of-mem _ _ found in
      transitioned-RolledBack s vs previous result (record { there = there; greatest = greatest })
        same _ refl h

  -- How `rollback` ends when it returns. If it returns a version's number, that version was the
  -- archived one with the greatest number, and it was moved to production with the versions there
  -- archived. If it returns `None`, no version was archived and nothing was moved.
  pub rollback_lem :
      (s : mlflow.Server) (result : Option ℕ)
      → (rollback mlflow name s).1 ≡ ok result
      → RolledBack (laws.versions s name) (laws.versions (rollback mlflow name s).0 name) result
  unfolding rollback ◌>>=◌
  rollback_lem s result h = after (mlflow.search_model_versions name s) refl h
    where
      after :
          (p : mlflow.Server × Result (List Version))
          → mlflow.search_model_versions name s ≡ p
          → (and_then (λ versions. restore mlflow name (newest_of (archived versions))) p).1
            ≡ ok result
          → RolledBack
              (laws.versions s name)
              (laws.versions
                (and_then (λ versions. restore mlflow name (newest_of (archived versions))) p).0
                name)
              result
      after (s', raise e) here returned = absurd (cc)
      after (s', ok vs) here returned =
          let same : vs ≡ laws.versions s name = laws.searched s name vs (ap (λ p. p.1) here) in
          let kept : laws.versions s' name ≡ laws.versions s name =
            ap (λ (p : mlflow.Server × Result (List Version)). laws.versions p.0 name) (sym here)
            ∙ laws.search_keeps s name name in
          rw (← same) (restore-RolledBack s' vs _ result refl (same ∙ sym kept) returned)
