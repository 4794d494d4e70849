-- ===== src/Features/OnlineStore/RateLimit.antt =====
-- `OnlineFeatureStore.rate_limit_hit`: what a client sees that calls it several times.
use native.Mathlib.Nat.{div-add-mod, mod-lt}
use native.Mathlib.Numerals.{add-one}
use nexusfeed.Prelude.{
  ℕ, suc, ◌+◌, ◌*◌, ◌/◌, ◌≤◌, ◌<◌, ◌≡◌, refl, sym, ap, ◌∙◌, Bool, none, some, List, [], ◌∷◌, String,
  leb, arith,
}
use nexusfeed.Float.{Float}
use nexusfeed.Types.{Time}
use nexusfeed.Redis.{Redis, Laws, CounterLaws, Key, Value, Command, Reply, second}
use nexusfeed.World.{World, Result, ok}
use nexusfeed.Features.OnlineStore.{window_at, rate_limit_hit}

-- two times of one window are less than a window apart
pub window-lt : (len a b : ℕ) → 0 < len → a / len ≡ b / len → b < a + len
window-lt len a b positive same =
    omega (arith, div-add-mod a len, div-add-mod b len, mod-lt b positive, ap (◌*◌ len) same)

module _ {W : Type 0} ⦃f : Float W⦄ (r : Redis W) (api_key : String)
    (window_seconds limit : ℕ) where
  abbrev pub at_time : Time → World r.Store → World r.Store
  at_time t w = record w { clock = t }

  -- the answers to calls at these times
  unfoldable pub serve : List Time → World r.Store → List (Result (Bool × ℕ))
  serve [] w = []
  serve (t ∷ ts) w =
      let (w', answer) = rate_limit_hit r api_key window_seconds limit (at_time t w) in
      answer ∷ serve ts w'

  -- the answers of a counter that stands at n
  unfoldable pub answers : (n : ℕ) → List Time → List (Result (Bool × ℕ))
  answers n [] = []
  answers n (t ∷ ts) = ok (leb (n + 1) limit, n + 1) ∷ answers (n + 1) ts

  -- times that ascend from `from` on, and all lie in the window of the given number
  pub data InWindow (window : ℕ) : Time → List Time → Type 0 where
    stop : {from : Time} → InWindow window from []
    next :
        {from t : Time} {ts : List Time}
        → from ≤ t
        → window_at t window_seconds ≡ window
        → InWindow window t ts
        → InWindow window from (t ∷ ts)

  abbrev pub key_at : Time → Key
  key_at t = Key.ratelimit api_key (window_at t window_seconds)

  abbrev pub counted : Time → r.Store → r.Store
  counted t s = (r.exec t s (Command.incr (key_at t))).0

  hit_first :
      (w : World r.Store)
      → (r.exec w.clock w.redis (Command.incr (key_at w.clock))).1 ≡ Reply.integer 1
      → rate_limit_hit r api_key window_seconds limit w ≡ (
        record w {
          redis =
              (r.exec w.clock
                (counted w.clock w.redis)
                (Command.expire (key_at w.clock) window_seconds)).0;
        },
        ok (leb 1 limit, 1),
      )
  unfolding rate_limit_hit
  hit_first w one = ground arith

  hit_next :
      (w : World r.Store) (n : ℕ)
      → (r.exec w.clock w.redis (Command.incr (key_at w.clock))).1 ≡ Reply.integer (suc (suc n))
      → rate_limit_hit r api_key window_seconds limit w
        ≡ (record w { redis = counted w.clock w.redis }, ok (leb (suc (suc n)) limit, suc (suc n)))
  unfolding rate_limit_hit
  hit_next w n more = ground arith

  module _ (laws : Laws r) (counting : CounterLaws r laws) where
    -- from the clock of the world until `until` the counter of the window holds n
    abbrev pub Counts : (window n : ℕ) (until : Time) → World r.Store → Type 0
    Counts window n until w =
        (t : Time)
        → w.clock ≤ t
        → t < until
        → laws.live w.redis t (Key.ratelimit api_key window) ≡ some (Value.number n)

    -- the end of the time to live that a call sets which starts a window
    abbrev pub end_of : Time → Time
    end_of t = t + window_seconds * second

    pub first-Counts :
        (w : World r.Store)
        → 0 < window_seconds
        → laws.live w.redis w.clock (key_at w.clock) ≡ none
        → (s : r.Store) × (rate_limit_hit r api_key window_seconds limit w
            ≡ (record w { redis = s }, ok (leb 1 limit, 1)))
          × Counts (window_at w.clock window_seconds) 1 (end_of w.clock) (record w { redis = s })
    first-Counts w positive free = (
      _,
      hit_first w (counting.incr_new w.clock w.redis (key_at w.clock) free),
      λ t after before.
          counting.expire_live w.clock t (counted w.clock w.redis) (key_at w.clock) (Value.number 1)
            window_seconds
            (counting.incr_new_live w.clock w.clock w.redis (key_at w.clock) free (omega arith))
            after before,
    )

    pub next-Counts :
        (w : World r.Store) (n : ℕ) (until : Time)
        → w.clock < until
        → Counts (window_at w.clock window_seconds) (suc n) until w
        → (s : r.Store) × (rate_limit_hit r api_key window_seconds limit w
            ≡ (record w { redis = s }, ok (leb (suc (suc n)) limit, suc (suc n))))
          × Counts (window_at w.clock window_seconds) (suc (suc n)) until (record w { redis = s })
    next-Counts w n until within counts =
        let now = counts w.clock (omega arith) within in
        (
          _,
          hit_next w n
              (rw add-one at (counting.incr_next w.clock w.redis (key_at w.clock) (suc n) now)),
          λ t after before. rw add-one at (
              counting.incr_next_live w.clock t w.redis (key_at w.clock) (suc n) now after
                (counts t after before)),
        )

    serve-next :
        (window n : ℕ) (until : Time) (w : World r.Store) (ts : List Time)
        → InWindow window w.clock ts
        → ((t : Time) → window_at t window_seconds ≡ window → t < until)
        → Counts window (suc n) until w
        → serve ts w ≡ answers (suc n) ts
    unfolding serve answers
    serve-next window n until w [] stop within counts = refl
    serve-next window n until w (t ∷ ts) (next after here rest) within counts =
        let soon = within t here in
        let later : Counts window (suc n) until (at_time t w) = λ t' a. counts t' (omega arith) in
        let (s, answered, counts') = next-Counts (at_time t w) n until soon (rw here later) in
        rw (answered, add-one)
          (ap (◌∷◌ (ok (leb (suc (suc n)) limit, suc (suc n)))) (
            serve-next window (suc n) until (record w { clock = t; redis = s }) ts rest within
              (rw here at counts')))

    -- A client without a counter in Redis calls at ascending times that all lie in one window. Its i-th call
    -- is told the count i, and is allowed exactly if i is at most the limit.
    pub rate_limit_hit-counts :
        (window : ℕ) (w : World r.Store) (ts : List Time)
        → 0 < window_seconds
        → ((t : Time) → w.clock ≤ t → laws.live w.redis t (Key.ratelimit api_key window) ≡ none)
        → InWindow window w.clock ts
        → serve ts w ≡ answers 0 ts
    unfolding serve answers
    rate_limit_hit-counts window w [] positive free stop = refl
    rate_limit_hit-counts window w (t ∷ ts) positive free (next after here rest) =
        let (s, answered, counts) = first-Counts (at_time t w) positive (rw here (free t after)) in
        let within : (t' : Time) → window_at t' window_seconds ≡ window → t' < end_of t =
          λ t' there. window-lt (window_seconds * second) t t' (omega arith) (here ∙ sym there) in
        rw answered (
          ap (◌∷◌ (ok (leb 1 limit, 1))) (
            serve-next window 0 (end_of t) (record w { clock = t; redis = s }) ts rest within
              (rw here at counts)))
