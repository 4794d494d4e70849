-- ===== src/Api/Middleware/Limit.antt =====
-- How many requests of one client reach the endpoints within a window.
use nexusfeed.Prelude.{
  ℕ, suc, ◌*◌, ◌≤◌, ◌<◌, ◌≡◌, refl, sym, ap, ◌∙◌, Bool, true, false, none, some, List, [], ◌∷◌,
  String, leb, arith, if◌then◌else◌, Bool-cases, inl, inr,
}
use nexusfeed.Float.{Float}
use nexusfeed.Types.{Time}
use nexusfeed.Redis.{Redis, Laws, CounterLaws, Key, second}
use nexusfeed.World.{World, M, Result, ok, pure}
use nexusfeed.Features.OnlineStore.{window_at, rate_limit_hit}
use nexusfeed.Features.OnlineStore.RateLimit.{
  Counts, InWindow, first-Counts, next-Counts, window-lt, end_of,
}
use nexusfeed.Api.Middleware.{
  Request, Response, Settings, Handler, is_public, is_events, is_refused, too_many, id_or, tagged,
  auth_dispatch, rate_limit_dispatch, request_id_dispatch, access_log_dispatch, create_app,
}

module _ {W B : Type 0} ⦃f : Float W⦄ (r : Redis W) (settings : Settings) (str : ℕ → String)
    (new_id : String) (routes : Handler r.Store B) (request : Request) (api_key : String) where
  abbrev limit : ℕ
  limit = settings.rate_limit_events_per_second

  abbrev window_seconds : ℕ
  window_seconds = settings.rate_limit_window_seconds

  abbrev request_id : String
  request_id = id_or new_id request.request_id_header

  -- the request as the endpoints see it
  abbrev pub admitted : Request
  admitted = record request { request_id = some request_id; api_key = some api_key }

  -- what the endpoints do with it, and the line in the access log
  abbrev pub logged : M r.Store (Response B)
  logged = access_log_dispatch routes admitted

  -- the world after a request, and the answer
  abbrev End : Type 0
  End = World r.Store × Result (Response B)

  -- how each of the requests ends that are sent at these times
  unfoldable pub respond : List Time → World r.Store → List End
  respond [] w = []
  respond (t ∷ ts) w =
      let end = create_app r settings str true new_id routes request (record w { clock = t }) in
      end ∷ respond ts end.0

  -- How requests end that are sent to the world `w` at the times given, when `n` came before: the
  -- first `limit` of all end as the endpoints do with the request in hand, once it is counted, with
  -- its id in the answer; every other is refused, and the world is as before it but for the clock and
  -- what `rate_limit_hit` did to Redis.
  pub data Limited : (n : ℕ) → World r.Store → List Time → List End → Type 0 where
    done : {n : ℕ} {w : World r.Store} → Limited n w [] []
    reached :
        {n : ℕ} {w : World r.Store} {ts : List Time} {ends : List End} (t : Time) (s : r.Store)
        → (rate_limit_hit r api_key window_seconds limit (record w { clock = t })).0.redis ≡ s
        → n < limit
        → Limited
            (suc n)
            (request_id_dispatch new_id (λ _. logged) request (record w { clock = t; redis = s })).0
            ts
            ends
        → Limited n w (t ∷ ts) (
            request_id_dispatch new_id (λ _. logged) request (record w { clock = t; redis = s })
            ∷ ends)
    refused :
        {n : ℕ} {w : World r.Store} {ts : List Time} {ends : List End} (t : Time) (s : r.Store)
        → (rate_limit_hit r api_key window_seconds limit (record w { clock = t })).0.redis ≡ s
        → limit ≤ n
        → Limited (suc n) (record w { clock = t; redis = s }) ts ends
        → Limited n w (t ∷ ts) (
            (record w { clock = t; redis = s }, ok (tagged request_id (too_many str settings)))
            ∷ ends)

  module _ (keyed : request.key_header ≡ some api_key) (private : is_public request.path ≡ false)
      (valid : is_refused settings (some api_key) ≡ false)
      (events : is_events request.path ≡ true) where
    app_hit :
        (v : World r.Store) (s : r.Store) (n : ℕ) (allowed : Bool)
        → rate_limit_hit r api_key window_seconds limit v
          ≡ (record v { redis = s }, ok (allowed, n))
        → create_app r settings str true new_id routes request v
          ≡ request_id_dispatch new_id
              (λ _. if allowed then logged else pure (too_many str settings))
              request
              (record v { redis = s })
    unfolding create_app request_id_dispatch auth_dispatch rate_limit_dispatch
    app_hit v s n true hit = ground arith
    app_hit v s n false hit = ground arith

    -- what a request leaves in Redis that reaches the endpoints
    routed-redis :
        (u : World r.Store)
        → (request_id_dispatch new_id (λ _. logged) request u).0.redis ≡ (routes admitted u).0.redis
    unfolding request_id_dispatch access_log_dispatch
    routed-redis u = ground arith

    refusal :
        (u : World r.Store)
        → request_id_dispatch {B = B} new_id (λ _. pure (too_many str settings)) request u
          ≡ (u, ok (tagged request_id (too_many str settings)))
    unfolding request_id_dispatch
    refusal u = refl

    module _ (laws : Laws r) (counting : CounterLaws r laws) (window : ℕ)
        (keeps : (v : World r.Store) (t : Time)
          → laws.live (routes admitted v).0.redis t (Key.ratelimit api_key window)
            ≡ laws.live v.redis t (Key.ratelimit api_key window)) where
      -- from `from` until `until` the counter of the window holds n
      abbrev Holds : (n : ℕ) (from until : Time) → World r.Store → Type 0
      Holds n from until w =
          Counts r api_key window_seconds limit laws counting window n until
            (record w { clock = from })

      one_hit :
          (n : ℕ) (t until : Time) (ts : List Time) (w : World r.Store) (s : r.Store)
          → rate_limit_hit r api_key window_seconds limit (record w { clock = t })
            ≡ (record w { clock = t; redis = s }, ok (leb (suc n) limit, suc n))
          → Holds (suc n) t until (record w { redis = s })
          → ((w' : World r.Store)
              → Holds (suc n) t until w'
              → Limited (suc n) w' ts (respond ts w'))
          → Limited n w (t ∷ ts) (respond (t ∷ ts) w)
      unfolding respond
      one_hit n t until ts w s hit holds later = elim (Bool-cases (leb (suc n) limit)) [
        | inl allowed ↦
            let app = app_hit (record w { clock = t }) s (suc n) true (rw allowed at hit) in
            let u = record w { clock = t; redis = s } in
            let below : n < limit = ground arith in
            rw app (
              Limited.reached t s (ap (λ x. x.0.redis) hit) below (
                later _ λ t' a b.
                  ap (λ s'. laws.live s' t' (Key.ratelimit api_key window)) (routed-redis u)
                  ∙ (keeps u t' ∙ holds t' a b)))
        | inr over ↦
            let app = app_hit (record w { clock = t }) s (suc n) false (rw over at hit) in
            let u = record w { clock = t; redis = s } in
            let above : limit ≤ n = ground arith in
            rw (app, refusal u)
              (Limited.refused t s (ap (λ x. x.0.redis) hit) above (later u holds))
      ]

      respond-Limited :
          (n : ℕ) (from until : Time) (w : World r.Store) (ts : List Time)
          → InWindow r api_key window_seconds limit window from ts
          → ((t : Time) → window_at t window_seconds ≡ window → t < until)
          → Holds (suc n) from until w
          → Limited (suc n) w ts (respond ts w)
      unfolding respond
      respond-Limited n from until w [] InWindow.stop within holds = Limited.done
      respond-Limited n from until w (t ∷ ts) (InWindow.next after here rest) within holds =
          let soon = within t here in
          let later : Holds (suc n) t until (record w { clock = t }) =
            λ t' a. holds t' (omega arith) in
          let (s, hit, holds') =
            next-Counts r api_key window_seconds limit laws counting (record w { clock = t }) n
              until soon (rw here later) in
          one_hit (suc n) t until ts w s hit (rw here at holds')
            (λ w' still. respond-Limited (suc n) t until w' ts rest within still)

      -- One client, whose key is valid, sends a request for a path under /events at ascending times
      -- of one window, and has no counter in Redis at first. The first `limit` requests end as the
      -- endpoints do with them, once they are counted. Every later one is answered by 429, and all
      -- that it changes is what `rate_limit_hit` changes in Redis, so the endpoints are not reached.
      -- The endpoints may do anything but change what that counter is.
      pub create_app-Limited :
          (from : Time) (w : World r.Store) (ts : List Time)
          → 0 < window_seconds
          → ((t : Time) → from ≤ t → laws.live w.redis t (Key.ratelimit api_key window) ≡ none)
          → InWindow r api_key window_seconds limit window from ts
          → Limited 0 w ts (respond ts w)
      unfolding respond
      create_app-Limited from w [] positive free InWindow.stop = Limited.done
      create_app-Limited from w (t ∷ ts) positive free (InWindow.next after here rest) =
          let v = record w { clock = t } in
          let until = end_of r api_key window_seconds limit laws counting t in
          let (s, hit, holds) =
            first-Counts r api_key window_seconds limit laws counting v positive
              (rw here (free t after)) in
          one_hit 0 t until ts w s hit (rw here at holds) (λ w' still.
            respond-Limited 0 t until w' ts rest
              (λ t' there.
                window-lt (window_seconds * second) t t' (omega arith) (here ∙ sym there))
              still)
