-- ===== src/Models/Mlflow.antt =====
-- The MLflow model registry, which is not code of the repository: its client's calls, each of which
-- may raise, and `Laws`, the documented behaviour that nexusfeed/models/model_registry.py relies
-- on. A version's text is the number that it spells.
use nexusfeed.Prelude.{
  ℕ, ◌<◌, ◌≡◌, Bool, true, List, [], ◌∷◌, ◌++◌, map, String, nat_beq, arith, Eq, ◌==◌, string_eq,
  nat_eq, if◌then◌else◌, ◌↔◌, ◌&&◌,
}
use mathlib.Core.List.{Mem}
use nexusfeed.World.{Exn, Result, ok, raise}

-- "None", "Staging", "Production" and "Archived"
pub data Stage : Type 0 where
  no_stage staging production archived : Stage

abbrev pub stage_position : Stage → ℕ
stage_position Stage.no_stage = 0
stage_position Stage.staging = 1
stage_position Stage.production = 2
stage_position Stage.archived = 3

pub stage_beq_iff : (a b : Stage) → (nat_beq (stage_position a) (stage_position b) ≡ true) ↔ (a ≡ b)
stage_beq_iff a b = ground arith

instance abbrev pub stage_eq : Eq Stage
stage_eq = record {
  beq = λ a b. nat_beq (stage_position a) (stage_position b);
  beq_iff = stage_beq_iff;
}

pub record Version : Type 0 where
  pub version : ℕ
  pub current_stage : Stage

-- a call on the state `S` of a server, which returns or raises
abbrev pub Call : Type 0 → Type 0 → Type 0
Call S A = S → S × Result A

module _ {S : Type 0} where
  abbrev pub pure : {A : Type 0} → A → Call S A
  pure a s = (s, ok a)

  abbrev pub and_then : {A B : Type 0} → (A → Call S B) → S × Result A → S × Result B
  and_then f (s, ok a) = f a s
  and_then f (s, raise e) = (s, raise e)

  infixl 5 ◌>>=◌ ◌>>◌
  unfoldable pub ◌>>=◌ : {A B : Type 0} → Call S A → (A → Call S B) → Call S B
  ◌>>=◌ m f s = and_then f (m s)

  abbrev pub ◌>>◌ : {B : Type 0} → Call S (Unit {0}) → Call S B → Call S B
  m >> k = m >>= λ _. k

  -- `try: m` with `except Exception: pass`
  abbrev pub ignoring : Call S (Unit {0}) → Call S (Unit {0})
  ignoring m s = ((m s).0, ok tt)

pub record Mlflow : Type 1 where
  pub Server : Type 0
  pub create_registered_model : String → Call Server (Unit {0})
  -- the name and the source
  pub create_model_version : String → String → Call Server ℕ
  pub set_model_version_tag : String → ℕ → (key value : String) → Call Server (Unit {0})
  -- whether the versions that are in the stage are archived comes last
  pub transition_model_version_stage : String → ℕ → Stage → Bool → Call Server (Unit {0})
  pub search_model_versions : String → Call Server (List Version)
  pub get_latest_versions : String → Stage → Call Server (List Version)

-- a move of version `v` to a stage, seen at one version
unfoldable pub moved : ℕ → Stage → (archive_existing : Bool) → Version → Version
moved v stage archive_existing w =
    if w.version == v
    then record w { current_stage = stage }
    else if archive_existing && (w.current_stage == stage)
    then record w { current_stage = Stage.archived }
    else w

-- `versions s name` is what the registry holds for a model. A call that raises leaves it as it was.
pub record Laws (m : Mlflow) : Type 0 where
  pub versions : m.Server → String → List Version
  pub created_model :
      (s : m.Server) (name other : String)
      → versions (m.create_registered_model name s).0 other ≡ versions s other
  pub created_version :
      (s : m.Server) (name source other : String) (n : ℕ)
      → (m.create_model_version name source s).1 ≡ ok n
      → versions (m.create_model_version name source s).0 other ≡ (
          if name == other
          then versions s other ++ record { version = n; current_stage = Stage.no_stage } ∷ []
          else versions s other)
  pub created_fresh :
      (s : m.Server) (name source : String) (n : ℕ) (w : Version)
      → (m.create_model_version name source s).1 ≡ ok n
      → Mem w (versions s name)
      → w.version < n
  pub created_version_raises :
      (s : m.Server) (name source other : String) (e : Exn)
      → (m.create_model_version name source s).1 ≡ raise e
      → versions (m.create_model_version name source s).0 other ≡ versions s other
  pub tagged :
      (s : m.Server) (name : String) (v : ℕ) (key value other : String)
      → versions (m.set_model_version_tag name v key value s).0 other ≡ versions s other
  pub transitioned :
      (s : m.Server) (name : String) (v : ℕ) (stage : Stage) (archive_existing : Bool)
      (other : String)
      → (m.transition_model_version_stage name v stage archive_existing s).1 ≡ ok tt
      → versions (m.transition_model_version_stage name v stage archive_existing s).0 other ≡ (
          if name == other
          then map (moved v stage archive_existing) (versions s other)
          else versions s other)
  pub transition_raises :
      (s : m.Server) (name : String) (v : ℕ) (stage : Stage) (archive_existing : Bool)
      (other : String) (e : Exn)
      → (m.transition_model_version_stage name v stage archive_existing s).1 ≡ raise e
      → versions (m.transition_model_version_stage name v stage archive_existing s).0 other
        ≡ versions s other
  pub search_keeps :
      (s : m.Server) (name other : String)
      → versions (m.search_model_versions name s).0 other ≡ versions s other
  pub searched :
      (s : m.Server) (name : String) (vs : List Version)
      → (m.search_model_versions name s).1 ≡ ok vs
      → vs ≡ versions s name
