-- ===== src/Models/Registry/Stages.antt =====
-- Which versions are in production, over every sequence of the registry's operations.
use mathlib.Core.List.{Mem, mem-cons_self, mem-cons_of_mem}
use nexusfeed.Prelude.{
  ℕ, ◌+◌, ◌≤◌, ◌<◌, ◌≡◌, refl, Bool, true, false, List, [], ◌∷◌, ◌++◌, map, String, arith, ◌==◌,
  if◌then◌else◌, Bool-cases, inl, inr, nat_eq, string_eq,
}
use nexusfeed.World.{Result, ok, raise, Result-cases}
use nexusfeed.Models.Mlflow.{Mlflow, Version, Stage, stage_eq, Laws, moved, Call, and_then, ◌>>=◌}
use nexusfeed.Models.Registry.{is_in}

abbrev pub has_number : ℕ → Version → Bool
has_number v w = w.version == v

-- how many members pass a test
abbrev pub count_if : (Version → Bool) → List Version → ℕ
count_if test [] = 0
count_if test (v ∷ vs) = (if test v then 1 else 0) + count_if test vs

-- at most one version is in production, and no two have one number
pub record IsConsistent (vs : List Version) : Type 0 where
  pub one_production : count_if (is_in Stage.production) vs ≤ 1
  pub distinct : (v : ℕ) → count_if (has_number v) vs ≤ 1

count_if-append :
    (test : Version → Bool) (vs ws : List Version)
    → count_if test (vs ++ ws) ≡ count_if test vs + count_if test ws
count_if-append test [] ws = omega arith
count_if-append test (v ∷ vs) ws = omega (arith, count_if-append test vs ws)

-- a move keeps the numbers
count_if-moved :
    (v n : ℕ) (stage : Stage) (b : Bool) (vs : List Version)
    → count_if (has_number n) (map (moved v stage b) vs) ≡ count_if (has_number n) vs
unfolding moved
count_if-moved v n stage b [] = refl
count_if-moved v n stage b (w ∷ vs) = ground (arith, count_if-moved v n stage b vs)

-- a move that is not to production adds none to it
count_if-moved_other :
    (v : ℕ) (stage : Stage) (b : Bool) (vs : List Version)
    → (stage == Stage.production) ≡ false
    → count_if (is_in Stage.production) (map (moved v stage b) vs)
      ≤ count_if (is_in Stage.production) vs
unfolding moved
count_if-moved_other v stage b [] h = omega arith
count_if-moved_other v stage b (w ∷ vs) h = ground (arith, count_if-moved_other v stage b vs h)

-- after a move to production that archives, only the moved version can be there
count_if-moved_production :
    (v : ℕ) (vs : List Version)
    → count_if (is_in Stage.production) (map (moved v Stage.production true) vs)
      ≡ count_if (has_number v) vs
unfolding moved
count_if-moved_production v [] = refl
count_if-moved_production v (w ∷ vs) = ground (arith, count_if-moved_production v vs)

-- a number above all is not there yet
count_if-fresh :
    (n : ℕ) (vs : List Version)
    → ((w : Version) → Mem w vs → w.version < n)
    → count_if (has_number n) vs ≡ 0
count_if-fresh n [] h = refl
count_if-fresh n (w ∷ vs) h =
    let below = h w mem-cons_self in
    let rest = count_if-fresh n vs (λ x m. h x (mem-cons_of_mem w m)) in ground arith

module _ (mlflow : Mlflow) (laws : Laws mlflow) where
  abbrev pub Consistent : mlflow.Server → Type 0
  Consistent s = (name : String) → IsConsistent (laws.versions s name)

  -- a call after which the registry is consistent, if it was so before
  abbrev pub Keeps : {A : Type 0} → Call mlflow.Server A → Type 0
  Keeps m = (s : mlflow.Server) → Consistent s → Consistent (m s).0

  pub Keeps-bind :
      {A B : Type 0} (m : Call mlflow.Server A) (f : A → Call mlflow.Server B)
      → Keeps m
      → ((a : A) → Keeps (f a))
      → Keeps (m >>= f)
  unfolding ◌>>=◌
  Keeps-bind {A} {B} m f first second s c = after (m s) (first s c)
    where
      after : (p : mlflow.Server × Result A) → Consistent p.0 → Consistent (and_then f p).0
      after (s', ok a) c' = second a s' c'
      after (s', raise e) c' = c'

  -- an operation that keeps what the registry holds keeps it consistent
  pub kept :
      (s t : mlflow.Server)
      → ((other : String) → laws.versions t other ≡ laws.versions s other)
      → Consistent s
      → Consistent t
  kept s t same c other = rw (same other) (c other)

  moved-Consistent :
      (s : mlflow.Server) (name : String) (v : ℕ) (stage : Stage) (b : Bool)
      → ((vs : List Version)
          → IsConsistent vs
          → count_if (is_in Stage.production) (map (moved v stage b) vs) ≤ 1)
      → Consistent s
      → Consistent (mlflow.transition_model_version_stage name v stage b s).0
  moved-Consistent s name v stage b few c =
      elim (Result-cases (mlflow.transition_model_version_stage name v stage b s).1) [
        | inl (_, returns) ↦ λ other.
            rw (laws.transitioned s name v stage b other returns)
              (elim (Bool-cases (name == other)) [
                | inl same ↦ rw same (record {
                  one_production = few (laws.versions s other) (c other);
                  distinct = λ n.
                      rw (count_if-moved v n stage b (laws.versions s other))
                        ((c other).distinct n);
                })
                | inr apart ↦ rw apart (c other)
              ])
        | inr (e, raises) ↦
            kept s _ (λ other. laws.transition_raises s name v stage b other e raises) c
      ]

  pub produced-Consistent :
      (s : mlflow.Server) (name : String) (v : ℕ)
      → Consistent s
      → Consistent (mlflow.transition_model_version_stage name v Stage.production true s).0
  produced-Consistent s name v =
      moved-Consistent s name v Stage.production true
        (λ vs c. rw (count_if-moved_production v vs) (c.distinct v))

  pub staged-Consistent :
      (s : mlflow.Server) (name : String) (v : ℕ)
      → Consistent s
      → Consistent (mlflow.transition_model_version_stage name v Stage.staging false s).0
  staged-Consistent s name v = moved-Consistent s name v Stage.staging false (λ vs c.
      let fewer = count_if-moved_other v Stage.staging false vs refl in
      let one = c.one_production in omega arith)

  pub created-Consistent : (name source : String) → Keeps (mlflow.create_model_version name source)
  created-Consistent name source s c =
      elim (Result-cases (mlflow.create_model_version name source s).1) [
        | inl (n, returns) ↦ λ other.
            rw (laws.created_version s name source other n returns)
              (elim (Bool-cases (name == other)) [
                | inl same ↦ rw same (added n returns other ((string_eq.beq_iff name other).0 same))
                | inr apart ↦ rw apart (c other)
              ])
        | inr (e, raises) ↦
            kept s _ (λ other. laws.created_version_raises s name source other e raises) c
      ]
    where
      added :
          (n : ℕ)
          → (mlflow.create_model_version name source s).1 ≡ ok n
          → (other : String) → name ≡ other
          → IsConsistent
              (laws.versions s other ++ record { version = n; current_stage = Stage.no_stage } ∷ [])
      added n returns other same =
          let new : Version = record { version = n; current_stage = Stage.no_stage } in
          let fresh =
            count_if-fresh n (laws.versions s other)
              (λ w m. laws.created_fresh s name source n w returns (rw same m)) in
          record {
            one_production =
                let split =
                  count_if-append (is_in Stage.production) (laws.versions s other) (new ∷ []) in
                let one = (c other).one_production in ground arith;
            distinct = λ v.
                let split = count_if-append (has_number v) (laws.versions s other) (new ∷ []) in
                let one = (c other).distinct v in ground arith;
          }
