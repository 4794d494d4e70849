-- ===== src/Features/OnlineStore.antt =====
-- nexusfeed/features/online_store.py: `OnlineFeatureStore`, with the TTLs of nexusfeed/config.py.
pub mod RateLimit
use nexusfeed.Prelude.{
  ℕ, ◌+◌, ◌*◌, ◌/◌, ◌-◌, Bool, true, false, Option, none, some, List, [], ◌∷◌, map, String,
  if◌then◌else◌, leb, nat_beq, put, string_eq,
}
use nexusfeed.Prelude.Int.{ℤ, pos, negsuc, sub_ℕ}
use nexusfeed.Float.{Float, zero_score}
use nexusfeed.Types.{Uuid, Time}
use nexusfeed.Redis.{Redis, Key, Value, Command, Reply, second}
use nexusfeed.Features.Packing.{Codec, pack_embedding, unpack_embedding}
use nexusfeed.Redis.Client.{run, send_command, value_of}
use nexusfeed.World.{World, M, Exn, Result, ok, raise, pure, fail, ◌>>=◌, ◌>>◌}

-- seconds
abbrev pub embedding_ttl : ℕ
embedding_ttl = 3600

abbrev pub recent_items_ttl : ℕ
recent_items_ttl = 86_400

abbrev pub freshness_ttl : ℕ
freshness_ttl = 300

abbrev pub trending_ttl : ℕ
trending_ttl = 900

abbrev pub experiment_ttl : ℕ
experiment_ttl = 604_800

-- `int(time.time() // window_seconds)`
abbrev pub window_at : Time → (window_seconds : ℕ) → ℕ
window_at now window_seconds = now / (window_seconds * second)

module _ {W : Type 0} ⦃f : Float W⦄ (r : Redis W) where
  open r use {Store}

  unfoldable pub set_user_embedding : Codec W → Uuid → List W → M Store (Unit {0})
  unfolding pack_embedding
  set_user_embedding codec user_id vector = elim (pack_embedding codec vector) [
    | raise e ↦ fail e
    | ok text ↦
        send_command r
          (Command.set (Key.user_embedding user_id) (Value.embedding text) embedding_ttl)
  ]

  -- what `get_user_embedding` makes of the reply; the text of another value does not decode
  unfoldable pub decoded_embedding : Codec W → Option (Value W) → Result (List W)
  unfolding unpack_embedding
  decoded_embedding codec none = raise Exn.feature_not_found
  decoded_embedding codec (some (Value.embedding text)) = unpack_embedding codec text
  decoded_embedding codec (some _) = raise Exn.value_error

  unfoldable pub get_user_embedding : Codec W → Uuid → M Store (List W)
  unfolding decoded_embedding
  get_user_embedding codec user_id = do
    reply ← run r (Command.get (Key.user_embedding user_id))
    raw ← value_of reply
    (λ w. (w, decoded_embedding codec raw))

  -- `timestamp or time.time()`: 0.0 is falsy
  abbrev pub now_or : Option W → Time → W
  now_or none clock = f.lit clock second
  now_or (some timestamp) clock =
      if f.lt timestamp zero_score
      then timestamp
      else if f.lt zero_score timestamp
      then timestamp
      else f.lit clock second

  unfoldable pub add_recent_item : Uuid → Uuid → Option W → M Store (Unit {0})
  add_recent_item user_id item_id timestamp w =
      let key = Key.user_recent user_id in
      (do
        send_command r (Command.zadd key item_id (now_or timestamp w.clock))
        send_command r (Command.expire key recent_items_ttl)
        send_command r (Command.zremrangebyrank key (pos 0) (negsuc 50)))
        w

  abbrev pub members_of : Reply W → M Store (List (String × W))
  members_of (Reply.members ms) = pure ms
  members_of _ = fail Exn.type_error

  unfoldable pub get_recent_items : Uuid → (limit : ℕ) → M Store (List String)
  get_recent_items user_id limit = do
    reply ← run r (Command.zrevrange (Key.user_recent user_id) (pos 0) (sub_ℕ limit 1))
    ms ← members_of reply
    pure (map (λ m. m.0) ms)

  unfoldable pub set_item_score : Uuid → W → M Store (Unit {0})
  set_item_score item_id score =
      send_command r (Command.set (Key.item_score item_id) (Value.score score) freshness_ttl)

  -- `float(raw) if raw is not None else 0.0`
  abbrev pub score_or_zero : Option (Value W) → M Store W
  score_or_zero none = pure zero_score
  score_or_zero (some (Value.score x)) = pure x
  score_or_zero (some (Value.number n)) = pure (f.lit n 1)
  score_or_zero (some Value.one) = pure (f.lit 1 1)
  score_or_zero (some _) = fail Exn.value_error

  unfoldable pub get_item_score : Uuid → M Store W
  get_item_score item_id = do
    reply ← run r (Command.get (Key.item_score item_id))
    raw ← value_of reply
    score_or_zero raw

  -- `pipe.execute()`: the commands one after the other
  unfoldable pub execute_gets : List Uuid → M Store (List (Option (Value W)))
  execute_gets [] = pure []
  execute_gets (item_id ∷ item_ids) = do
    reply ← run r (Command.get (Key.item_score item_id))
    raw ← value_of reply
    rest ← execute_gets item_ids
    pure (raw ∷ rest)

  -- the dict comprehension over `zip(item_ids, results, strict=True)`; a later entry wins
  unfoldable pub scores_into :
      List (String × W) → List Uuid → List (Option (Value W)) → M Store (List (String × W))
  scores_into d [] [] = pure d
  scores_into d (item_id ∷ item_ids) (raw ∷ results) = do
    score ← score_or_zero raw
    scores_into (put item_id score d) item_ids results
  scores_into d _ _ = fail Exn.value_error

  unfoldable pub batch_get_item_features : List Uuid → M Store (List (String × W))
  unfolding execute_gets scores_into
  batch_get_item_features [] = pure []
  batch_get_item_features (item_id ∷ item_ids) = do
    results ← execute_gets (item_id ∷ item_ids)
    scores_into [] (item_id ∷ item_ids) results

  unfoldable pub incr_trending : Uuid → W → M Store (Unit {0})
  incr_trending item_id by = do
    send_command r (Command.zincrby Key.trending_global by item_id)
    send_command r (Command.expire Key.trending_global trending_ttl)

  unfoldable pub get_trending : (limit : ℕ) → M Store (List (String × W))
  get_trending limit = do
    reply ← run r (Command.zrevrange Key.trending_global (pos 0) (sub_ℕ limit 1))
    members_of reply

  unfoldable pub cache_experiment_bucket : Uuid → ℕ → M Store (Unit {0})
  cache_experiment_bucket user_id bucket =
      send_command r
        (Command.set (Key.user_experiment user_id) (Value.number bucket) experiment_ttl)

  abbrev pub int_of : Option (Value W) → M Store (Option ℕ)
  int_of none = pure none
  int_of (some (Value.number n)) = pure (some n)
  int_of (some Value.one) = pure (some 1)
  int_of (some _) = fail Exn.value_error

  unfoldable pub get_cached_experiment_bucket : Uuid → M Store (Option ℕ)
  get_cached_experiment_bucket user_id = do
    reply ← run r (Command.get (Key.user_experiment user_id))
    raw ← value_of reply
    int_of raw

  unfoldable pub track_unique_viewer : Uuid → Uuid → M Store (Unit {0})
  track_unique_viewer item_id user_id =
      send_command r (Command.pfadd (Key.unique_viewers item_id) user_id)

  abbrev pub integer_of : Reply W → M Store ℕ
  integer_of (Reply.integer n) = pure n
  integer_of _ = fail Exn.type_error

  unfoldable pub unique_viewer_count : Uuid → M Store ℕ
  unique_viewer_count item_id = do
    reply ← run r (Command.pfcount (Key.unique_viewers item_id))
    integer_of reply

  -- `if count == 1: expire`
  unfoldable pub start_window : Key → ℕ → (count : ℕ) → M Store (Unit {0})
  start_window key window_seconds count =
      if nat_beq count 1 then send_command r (Command.expire key window_seconds) else pure tt

  unfoldable pub rate_limit_hit : (api_key : String) (window_seconds limit : ℕ) → M Store (Bool × ℕ)
  unfolding start_window
  rate_limit_hit api_key window_seconds limit w =
      let key = Key.ratelimit api_key (window_at w.clock window_seconds) in
      (do
        reply ← run r (Command.incr key)
        count ← integer_of reply
        start_window key window_seconds count
        pure (leb count limit, count))
        w
