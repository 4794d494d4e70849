-- ===== src/Tests/Registry.antt =====
-- A model registry in memory that meets the laws of MLflow's, and `ModelRegistry` on it.
use mathlib.Core.List.{Mem, mem-cons, mem-cons_self, mem-cons_of_mem, not-mem-nil}
use mathlib.Core.Logic.Or
use native.Mathlib.Bridge.{le_prop}
use nexusfeed.Prelude.{
  ℕ, suc, ◌≤◌, ◌<◌, ◌≡◌, refl, some, List, [], ◌∷◌, ◌++◌, map, max, String, arith, ◌==◌,
  if◌then◌else◌, nat_eq, string_eq, filter, sym,
}
use nexusfeed.World.{ok}
use nexusfeed.Models.Mlflow.{Mlflow, Version, Stage, stage_eq, Laws, moved, ◌>>=◌}
use nexusfeed.Models.Registry.{
  is_in, newest, newest_of, register, restore, rollback, promote_to_production,
}
use nexusfeed.Models.Registry.Stages.{Consistent}
use nexusfeed.Models.Registry.Steps.{◌⟶◌, ◌⟶*◌, ⟶*-Consistent}
use nexusfeed.Models.Registry.Rollback.{archived, RolledBack, rollback_lem}
use nexusfeed.Models.Registry.Again.{rollback-rollback}

abbrev next : List Version → ℕ
next [] = 1
next (v ∷ vs) = max (suc v.version) (next vs)

next-fresh : (vs : List Version) (w : Version) → Mem w vs → w.version < next vs
next-fresh [] w m = absurd (not-mem-nil m)
next-fresh (v ∷ vs) w m =
    Or.elim le_prop (mem-cons.0 m) (λ (e : w ≡ v). rw e (omega arith))
      (λ later. let below = next-fresh vs w later in omega arith)

abbrev Held : Type 0
Held = String → List Version

abbrev registry : Mlflow
registry = record {
  Server = Held;
  create_registered_model = λ name s. (s, ok tt);
  create_model_version = λ name source s. (
    λ other.
        if name == other
        then s other ++ record { version = next (s name); current_stage = Stage.no_stage } ∷ []
        else s other,
    ok (next (s name)),
  );
  set_model_version_tag = λ name v key value s. (s, ok tt);
  transition_model_version_stage = λ name v stage archive_existing s. (
    λ other. if name == other then map (moved v stage archive_existing) (s other) else s other,
    ok tt,
  );
  search_model_versions = λ name s. (s, ok (s name));
  get_latest_versions = λ name stage s. (s, ok (filter (is_in stage) (s name)));
}

ok-injective {ℓ} : {A : Type ℓ} {a b : A} → ok a ≡ ok b → a ≡ b
ok-injective h = cc

registry-Laws : Laws registry
registry-Laws = record {
  versions = λ s name. s name;
  created_model = λ s name other. refl;
  created_version = λ s name source other n h. rw (← ok-injective h) refl;
  created_fresh = λ s name source n w h m. rw (← ok-injective h) (next-fresh (s name) w m);
  created_version_raises = λ s name source other e h. absurd (cc);
  tagged = λ s name v key value other. refl;
  transitioned = λ s name v stage archive_existing other h. refl;
  transition_raises = λ s name v stage archive_existing other e h. absurd (cc);
  search_keeps = λ s name other. refl;
  searched = λ s name vs h. sym (ok-injective h);
}

abbrev show : ℕ → String
show n = "0.05"

abbrev empty : Held
empty name = []

-- a model is registered twice, put into production and rolled back
abbrev first_registered : Held
first_registered = (register registry show "ranker" "s3://a" (("ndcg", 40) ∷ []) "v1" empty).0

abbrev then_promoted : Held
then_promoted = (promote_to_production registry "ranker" 1 first_registered).0

abbrev rolled : Held
rolled = (rollback registry "ranker" then_promoted).0

⟶*-Consistent_example : Consistent registry registry-Laws rolled
unfolding registry-Laws
⟶*-Consistent_example =
    ⟶*-Consistent registry show registry-Laws
      (◌⟶*◌.also (◌⟶◌.registered empty "ranker" "s3://a" (("ndcg", 40) ∷ []) "v1") (
        ◌⟶*◌.also (◌⟶◌.promoted first_registered "ranker" 1)
          (◌⟶*◌.also (◌⟶◌.rolled_back then_promoted "ranker") ◌⟶*◌.here)))
      (λ name. record { one_production = omega arith; distinct = λ v. omega arith })

abbrev old : Version
old = record { version = 1; current_stage = Stage.archived }

abbrev current : Version
current = record { version = 2; current_stage = Stage.production }

abbrev two : Held
two name = old ∷ current ∷ []

returned : (rollback registry "ranker" two).1 ≡ ok (some 1)
unfolding rollback restore newest_of newest filter ◌>>=◌
returned = refl

returned_again : (rollback registry "ranker" (rollback registry "ranker" two).0).1 ≡ ok (some 2)
unfolding rollback restore newest_of newest filter moved ◌>>=◌
returned_again = refl

rollback_lem_example :
    RolledBack (two "ranker") ((rollback registry "ranker" two).0 "ranker") (some 1)
unfolding registry-Laws
rollback_lem_example = rollback_lem registry registry-Laws "ranker" two (some 1) returned

newest_current : (w : Version) → Mem w (two "ranker") → w.version ≤ 2
newest_current w m =
    Or.elim le_prop (mem-cons.0 m) (λ (e : w ≡ old). rw e (omega arith))
      (λ rest.
        Or.elim le_prop (mem-cons.0 rest) (λ (e : w ≡ current). rw e (omega arith))
          (λ none_left. absurd (not-mem-nil none_left)))

older_archived : (w : Version) → Mem w (archived (two "ranker")) → w.version < 2
unfolding filter
older_archived w m =
    Or.elim le_prop (mem-cons.0 m) (λ (e : w ≡ old). rw e (omega arith))
      (λ none_left. absurd (not-mem-nil none_left))

rollback-rollback_example : 2 ≡ current.version
unfolding registry-Laws
rollback-rollback_example =
    rollback-rollback registry registry-Laws "ranker" two current 1 2
      (mem-cons_of_mem old mem-cons_self) refl newest_current older_archived returned returned_again
