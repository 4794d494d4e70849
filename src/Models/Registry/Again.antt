-- ===== src/Models/Registry/Again.antt =====
-- Two rollbacks in a row.
use mathlib.Core.List.{Mem, mem-map_of_mem, exists_of_mem-map}
use mathlib.Core.Logic.{∥∥₁_elim}
use native.Mathlib.Bridge.{le_prop}
use nexusfeed.Prelude.{
  ℕ, ◌≤◌, ◌<◌, ◌≡◌, true, some, List, map, String, arith, nat_eq, Mem-filter, filter-Mem, ap,
}
use nexusfeed.World.{ok}
use nexusfeed.Models.Mlflow.{Mlflow, Version, Stage, stage_eq, Laws, moved}
use nexusfeed.Models.Registry.{is_in, rollback}
use nexusfeed.Models.Registry.Rollback.{archived, rollback_lem}

module _ (vs : List Version) (p : Version) (m : ℕ) where
  abbrev after : List Version
  after = map (moved m Stage.production true) vs

  -- the version in production goes to the archive
  replaced :
      Mem p vs
      → p.current_stage ≡ Stage.production
      → m < p.version
      → (w : Version) × Mem w (archived after) × (w.version ≡ p.version)
  unfolding moved
  replaced there current below =
      let at : moved m Stage.production true p ≡ record p { current_stage = Stage.archived } =
        ground arith in
      (
        moved m Stage.production true p,
        filter-Mem (is_in Stage.archived) after
            (mem-map_of_mem (moved m Stage.production true) there) (ground arith),
        ap (λ (w : Version). w.version) at,
      )

  -- no version in the archive is newer
  bounded :
      ((w : Version) → Mem w vs → w.version ≤ p.version)
      → (w : Version) → Mem w (archived after)
      → w.version ≤ p.version
  unfolding moved
  bounded newest w m' =
      ∥∥₁_elim (exists_of_mem-map (Mem-filter (is_in Stage.archived) after m').0) le_prop
        (λ (x, there, same).
          let below = newest x there in
          let number : (moved m Stage.production true x).version ≡ x.version = ground arith in
          let number' = ap (λ (v : Version). v.version) same in omega arith)

module _ (mlflow : Mlflow) (laws : Laws mlflow) (name : String) where
  -- A second rollback undoes the first one: if the version in production is the newest one of the
  -- model and the archived ones are older, then the first `rollback`, which puts another version in
  -- its place, is followed by one that puts the replaced version back, provided that both return a
  -- version.
  pub rollback-rollback :
      (s : mlflow.Server) (p : Version) (m n : ℕ)
      → Mem p (laws.versions s name)
      → p.current_stage ≡ Stage.production
      → ((w : Version) → Mem w (laws.versions s name) → w.version ≤ p.version)
      → ((w : Version) → Mem w (archived (laws.versions s name)) → w.version < p.version)
      → (rollback mlflow name s).1 ≡ ok (some m)
      → (rollback mlflow name (rollback mlflow name s).0).1 ≡ ok (some n)
      → n ≡ p.version
  rollback-rollback s p m n there current newest older once twice =
      let vs = laws.versions s name in
      let (q, m_q, first, moves) = rollback_lem mlflow laws name s (some m) once in
      let (r, n_r, second, _) =
        rollback_lem mlflow laws name (rollback mlflow name s).0 (some n) twice in
      let below = older q first.there in
      let (w, in_archive, number) = replaced vs p m there current (omega arith) in
      let above = (rw moves at second).greatest w in_archive in
      let bound = bounded vs p m newest r (rw moves at second).there in omega arith
