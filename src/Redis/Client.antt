-- ===== src/Redis/Client.antt =====
-- The client of redis-py, as far as the program uses it: one command, and the decoded reply.
use nexusfeed.Prelude.{Option, none, some}
use nexusfeed.World.{M, Exn, ok, pure, fail, ◌>>=◌}
use nexusfeed.Redis.{Redis, Value, Command, Reply}

module _ {W : Type 0} (r : Redis W) where
  open r use {Store, exec}

  -- one command, at the time of the clock
  abbrev pub run : Command W → M Store (Reply W)
  run c w = let (s, reply) = exec w.clock w.redis c in (record w { redis = s }, ok reply)

  -- a command whose reply is not used
  abbrev pub send_command : Command W → M Store (Unit {0})
  send_command c = do _ ← run c; pure tt

-- what `redis.get` returns
abbrev pub value_of : {S W : Type 0} → Reply W → M S (Option (Value W))
value_of Reply.nil = pure none
value_of (Reply.value v) = pure (some v)
value_of _ = fail Exn.type_error
