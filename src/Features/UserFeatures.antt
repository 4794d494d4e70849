-- ===== src/Features/UserFeatures.antt =====
-- nexusfeed/features/user_features.py: `UserFeatureService`. Arguments stand for Python's `sorted`
-- and `hash`, for numpy's generator, and for the offline store.
pub mod ColdStart
use nexusfeed.Prelude.{ℕ, ◌%◌, ◌^◌, Bool, true, false, Option, List, [], ◌∷◌, String}
use nexusfeed.Float.{Float}
use nexusfeed.Types.{Uuid}
use nexusfeed.Redis.{Redis}
use nexusfeed.World.{World, M, Exn, Result, ok, raise, pure, fail, ◌>>=◌, ◌>>◌}
use nexusfeed.Features.OfflineStore.{User, get_user_preferred_categories}
use nexusfeed.Features.Packing.{Codec}
use nexusfeed.Features.OnlineStore.{get_user_embedding, get_recent_items}

abbrev pub embedding_dim : ℕ
embedding_dim = 128

-- `tuple(sorted(categories)) or ("__none__",)`
abbrev pub or_none : List String → List String
or_none [] = "__none__" ∷ []
or_none (c ∷ cs) = c ∷ cs

pub record Numerics (W : Type 0) : Type 0 where
  pub sorted : List String → List String
  -- `abs(hash(t))`
  pub abs_hash : List String → ℕ
  -- `default_rng(seed).normal(loc=0.0, scale=0.1, size=n)`
  pub normal : (seed n : ℕ) → List W
  -- how embeddings are packed in the online store
  pub codec : Codec W

module _ {W : Type 0} ⦃f : Float W⦄ (r : Redis W) (numerics : Numerics W) where
  open numerics use {sorted, abs_hash, normal, codec}

  unfoldable pub cold_start_embedding : List String → List W
  cold_start_embedding categories =
      normal (abs_hash (or_none (sorted categories)) % 2 ^ 32) embedding_dim

  module _ (find_user : Uuid → Result (Option User)) where
    abbrev pub query_categories : Uuid → M r.Store (List String)
    query_categories user_id w = (w, get_user_preferred_categories (find_user user_id))

    -- the `except FeatureNotFoundError` clause
    abbrev pub on_missing : Uuid → Exn → M r.Store (List W × Bool)
    on_missing user_id Exn.feature_not_found = do
      categories ← query_categories user_id
      pure (cold_start_embedding categories, true)
    on_missing user_id e = fail e

    -- the embedding, and whether it is a cold start
    unfoldable pub get_embedding : Uuid → M r.Store (List W × Bool)
    get_embedding user_id w =
        let (w', cached) = get_user_embedding r codec user_id w in
        elim cached [
          | ok embedding ↦ (w', ok (embedding, false))
          | raise e ↦ on_missing user_id e w'
        ]

unfoldable pub get_recent_interaction_sequence :
    {W : Type 0} ⦃f : Float W⦄ (r : Redis W) → Uuid → (length : ℕ) → M r.Store (List String)
get_recent_interaction_sequence r user_id length = get_recent_items r user_id length
