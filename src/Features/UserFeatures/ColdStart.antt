-- ===== src/Features/UserFeatures/ColdStart.antt =====
-- When a user has an embedding, and which one.
use mathlib.Core.List.{Perm}
use nexusfeed.Prelude.{◌≡◌, refl, ap, ◌∙◌, Bool, true, Option, none, List, String, arith}
use nexusfeed.Float.{Float}
use nexusfeed.Types.{Uuid}
use nexusfeed.Redis.{Redis, Laws, Key, Command, Reply}
use nexusfeed.World.{World, Exn, Result, ok, raise}
use nexusfeed.Features.OfflineStore.{User, get_user_preferred_categories}
use nexusfeed.Features.Packing.{Codec}
use nexusfeed.Features.OnlineStore.{decoded_embedding, get_user_embedding}
use nexusfeed.Features.UserFeatures.{Numerics, cold_start_embedding, get_embedding}

module _ {W : Type 0} ⦃f : Float W⦄ (r : Redis W) (user_id : Uuid) where
  abbrev query : Command W
  query = Command.get (Key.user_embedding user_id)

  get_missing-embedding :
      (codec : Codec W) (w : World r.Store)
      → r.exec w.clock w.redis query ≡ (w.redis, Reply.nil)
      → get_user_embedding r codec user_id w ≡ (w, raise Exn.feature_not_found)
  unfolding get_user_embedding decoded_embedding
  get_missing-embedding codec w h = ground arith

  cold_start-sorted :
      (numerics : Numerics W) (xs ys : List String)
      → numerics.sorted xs ≡ numerics.sorted ys
      → cold_start_embedding r numerics xs ≡ cold_start_embedding r numerics ys
  unfolding cold_start_embedding
  cold_start-sorted numerics xs ys e = rw (cold_start_embedding, e) refl

  module _ (numerics : Numerics W) (find_user : Uuid → Result (Option User)) where
    abbrev embedding_at : World r.Store → World r.Store × Result (List W × Bool)
    embedding_at = get_embedding r numerics find_user user_id

    embedding_missing :
        (w : World r.Store) (categories : List String)
        → get_user_embedding r numerics.codec user_id w ≡ (w, raise Exn.feature_not_found)
        → get_user_preferred_categories (find_user user_id) ≡ ok categories
        → embedding_at w ≡ (w, ok (cold_start_embedding r numerics categories, true))
    unfolding get_embedding
    embedding_missing w categories h k = ground arith

    module _ (laws : Laws r) where
      -- Without a live embedding the service falls back to the prior of the user's categories, and
      -- reports a cold start. The prior depends only on which categories these are: any list with
      -- the same categories in another order gives the same embedding.
      pub get_embedding_cold_start :
          (w : World r.Store) (categories others : List String)
          → ((xs ys : List String) → Perm xs ys → numerics.sorted xs ≡ numerics.sorted ys)
          → laws.live w.redis w.clock (Key.user_embedding user_id) ≡ none
          → get_user_preferred_categories (find_user user_id) ≡ ok categories
          → Perm categories others
          → embedding_at w ≡ (w, ok (cold_start_embedding r numerics others, true))
      get_embedding_cold_start w categories others by_order missing known same =
          embedding_missing w categories
            (get_missing-embedding numerics.codec w
              (laws.get_missing w.clock w.redis (Key.user_embedding user_id) missing))
            known
          ∙ ap (λ e. (w, ok (e, true)))
              (cold_start-sorted numerics categories others (by_order categories others same))
