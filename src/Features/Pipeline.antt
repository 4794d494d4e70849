-- ===== src/Features/Pipeline.antt =====
-- nexusfeed/features/feature_pipeline.py: `FeaturePipeline.handle_event` on a decoded event. The
-- metrics are left out.
use nexusfeed.Prelude.{none, if◌then◌else◌}
use nexusfeed.Prelude.Int.{pos, pos_part, ltb_ℤ}
use nexusfeed.Float.{Float}
use nexusfeed.Types.{Event, signal_weight}
use nexusfeed.Redis.{Redis}
use nexusfeed.World.{M, pure, ◌>>◌}
use nexusfeed.Features.OnlineStore.{add_recent_item, track_unique_viewer, incr_trending}

module _ {W : Type 0} ⦃f : Float W⦄ (r : Redis W) where
  -- `if weight > 0`; weights are counted in quarters
  unfoldable pub count_trending : Event → M r.Store (Unit {0})
  unfolding signal_weight
  count_trending event =
      if ltb_ℤ (pos 0) (signal_weight event)
      then incr_trending r event.item_id (f.lit (pos_part (signal_weight event)) 4)
      else pure tt

  unfoldable pub handle_event : Event → M r.Store (Unit {0})
  unfolding count_trending
  handle_event event = do
    add_recent_item r event.user_id event.item_id none
    track_unique_viewer r event.item_id event.user_id
    count_trending event
