-- ===== src/Features/OfflineStore.antt =====
-- nexusfeed/features/offline_store.py: the reads of `OfflineFeatureStore` that serve a feed. The
-- rows that the session finds are an argument.
use nexusfeed.Prelude.{Option, none, some, List, [], String}
use nexusfeed.Float.{Float, zero_score}
use nexusfeed.World.{Result, ok, raise}

-- a row of the users table: the key "onboarding_categories" of its metadata, if it is there
pub record User : Type 0 where
  pub onboarding_categories : Option (List String)

unfoldable pub get_user_preferred_categories : Result (Option User) → Result (List String)
get_user_preferred_categories (raise e) = raise e
get_user_preferred_categories (ok none) = ok []
get_user_preferred_categories (ok (some user)) = elim user.onboarding_categories [
  | none ↦ ok []
  | some categories ↦ ok categories
]

-- the item's `historical_ctr`, if there is such an item
unfoldable pub get_item_historical_ctr : {W : Type 0} ⦃f : Float W⦄ → Result (Option W) → Result W
get_item_historical_ctr (raise e) = raise e
get_item_historical_ctr (ok none) = ok zero_score
get_item_historical_ctr (ok (some historical_ctr)) = ok historical_ctr
