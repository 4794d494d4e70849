-- ===== src/Redis.antt =====
-- The Redis server, which is not code of the repository: `exec` runs one command at a time of the
-- clock, and `Laws` is the documented behaviour that the program relies on. A key is one of the
-- key formats that the program builds; ids are UUIDs, so no two formats give one key. A value is
-- what the program encodes into the stored text.
pub mod Client
use mathlib.Core.Logic.{◌≢◌}
use nexusfeed.Prelude.{ℕ, ◌+◌, ◌*◌, ◌≤◌, ◌<◌, ◌≡◌, Option, none, some, List, String}
use nexusfeed.Prelude.Int.{ℤ}
use nexusfeed.Types.{Uuid, Time}

pub data Key : Type 0 where
  -- f"dedupe:event:{event_id}"
  dedupe_event : Uuid → Key
  -- f"user:{user_id}:embedding", f"user:{user_id}:recent", f"user:{user_id}:experiment"
  user_embedding : Uuid → Key
  user_recent : Uuid → Key
  user_experiment : Uuid → Key
  -- f"item:{item_id}:score", f"item:{item_id}:unique_viewers"
  item_score : Uuid → Key
  unique_viewers : Uuid → Key
  -- "trending:global"
  trending_global : Key
  -- f"ratelimit:{api_key}:{window}"
  ratelimit : String → ℕ → Key
  -- f"experiment:{experiment_name}:user:{user_id}"
  experiment_user : String → Uuid → Key

pub data Value (W : Type 0) : Type 0 where
  one : Value W
  number : ℕ → Value W
  score : W → Value W
  -- the codes of the base64 text of an embedding
  embedding : List ℕ → Value W
  -- f"{bucket}:{variant}", read back by `split(":")` and `int`
  assignment : ℤ → String → Value W

-- TTLs are in seconds, as the program gives them.
pub data Command (W : Type 0) : Type 0 where
  set : Key → Value W → ℕ → Command W
  set_nx : Key → Value W → ℕ → Command W
  get : Key → Command W
  incr : Key → Command W
  expire : Key → ℕ → Command W
  zadd : Key → String → W → Command W
  zincrby : Key → W → String → Command W
  -- start and stop; a negative stop counts from the end
  zremrangebyrank : Key → ℤ → ℤ → Command W
  zrevrange : Key → ℤ → ℤ → Command W
  pfadd : Key → String → Command W
  pfcount : Key → Command W

pub data Reply (W : Type 0) : Type 0 where
  done : Reply W
  nil : Reply W
  value : Value W → Reply W
  integer : ℕ → Reply W
  members : List (String × W) → Reply W

abbrev pub second : Time
second = 1_000_000

pub record Redis (W : Type 0) : Type 1 where
  pub Store : Type 0
  pub exec : Time → Store → Command W → Store × Reply W

-- `live s t k` is the value under `k` that has not expired at time `t`.
pub record Laws {W : Type 0} (r : Redis W) : Type 0 where
  pub live : r.Store → Time → Key → Option (Value W)
  pub get_missing :
      (t : Time) (s : r.Store) (k : Key)
      → live s t k ≡ none
      → r.exec t s (Command.get k) ≡ (s, Reply.nil)
  pub get_found :
      (t : Time) (s : r.Store) (k : Key) (v : Value W)
      → live s t k ≡ some v
      → r.exec t s (Command.get k) ≡ (s, Reply.value v)
  pub set_reply :
      (t : Time) (s : r.Store) (k : Key) (v : Value W) (ttl : ℕ)
      → (r.exec t s (Command.set k v ttl)).1 ≡ Reply.done
  pub set_live :
      (t t' : Time) (s : r.Store) (k : Key) (v : Value W) (ttl : ℕ)
      → t ≤ t'
      → t' < t + ttl * second
      → live (r.exec t s (Command.set k v ttl)).0 t' k ≡ some v
  pub set_ne :
      (t t' : Time) (s : r.Store) (k j : Key) (v : Value W) (ttl : ℕ)
      → k ≢ j
      → live (r.exec t s (Command.set k v ttl)).0 t' j ≡ live s t' j
  -- SET NX sets the key if it is free, and changes nothing otherwise
  pub set_nx_free :
      (t : Time) (s : r.Store) (k : Key) (v : Value W) (ttl : ℕ)
      → live s t k ≡ none
      → r.exec t s (Command.set_nx k v ttl) ≡ ((r.exec t s (Command.set k v ttl)).0, Reply.done)
  pub set_nx_taken :
      (t : Time) (s : r.Store) (k : Key) (v w : Value W) (ttl : ℕ)
      → live s t k ≡ some w
      → r.exec t s (Command.set_nx k v ttl) ≡ (s, Reply.nil)

-- INCR counts from the live number under the key, and leaves its time to live; a new counter has
-- none until EXPIRE gives it one.
pub record CounterLaws {W : Type 0} (r : Redis W) (laws : Laws r) : Type 0 where
  pub incr_new :
      (t : Time) (s : r.Store) (k : Key)
      → laws.live s t k ≡ none
      → (r.exec t s (Command.incr k)).1 ≡ Reply.integer 1
  pub incr_new_live :
      (t t' : Time) (s : r.Store) (k : Key)
      → laws.live s t k ≡ none
      → t ≤ t'
      → laws.live (r.exec t s (Command.incr k)).0 t' k ≡ some (Value.number 1)
  pub incr_next :
      (t : Time) (s : r.Store) (k : Key) (n : ℕ)
      → laws.live s t k ≡ some (Value.number n)
      → (r.exec t s (Command.incr k)).1 ≡ Reply.integer (n + 1)
  pub incr_next_live :
      (t t' : Time) (s : r.Store) (k : Key) (n : ℕ)
      → laws.live s t k ≡ some (Value.number n)
      → t ≤ t'
      → laws.live s t' k ≡ some (Value.number n)
      → laws.live (r.exec t s (Command.incr k)).0 t' k ≡ some (Value.number (n + 1))
  pub expire_live :
      (t t' : Time) (s : r.Store) (k : Key) (v : Value W) (ttl : ℕ)
      → laws.live s t k ≡ some v
      → t ≤ t'
      → t' < t + ttl * second
      → laws.live (r.exec t s (Command.expire k ttl)).0 t' k ≡ some v
