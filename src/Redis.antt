-- ===== src/Redis.antt =====
-- src/redis/RedisCli.h and src/redis/RedisCli.cpp: the queue of the callbacks of commands. What
-- hiredis answers is an argument, and when it calls getCallback is that of the steps of Pairing.
mod Pairing
mod Examples
use hwnet.Prelude.{ℕ, Bool, true, false, List, [], ◌∷◌, ◌++◌, Option, none, some, if◌then◌else◌}

-- A connection; the callbacks are numbers.
pub record RedisConn : Type 0 where
  pub closed : Bool
  pub redis_fns : List ℕ

-- RedisConn()
unfoldable pub new_conn : RedisConn
new_conn = record { closed = false; redis_fns = [] }

-- redisAsyncCommand; true is REDIS_OK, and `ok` is whether redisvAsyncCommand gives it.
unfoldable pub command : Bool → Option ℕ → RedisConn → Bool × RedisConn
command ok none c = (if c.closed then (false, c) else (ok, c))
command ok (some f) c =
    if c.closed
    then (false, c)
    else if ok
    then (true, record c { redis_fns = c.redis_fns ++ f ∷ [] })
    else (false, c)

-- getCallback up to the call: the callback that is called, or `none`, a reference to nothing.
unfoldable pub callback_front : RedisConn → Option ℕ
callback_front c = elim c.redis_fns [ [] ↦ none | f ∷ fs ↦ some f ]

abbrev pub without_front : List ℕ → List ℕ
without_front [] = []
without_front (f ∷ fs) = fs

-- getCallback after the call.
unfoldable pub callback_end : RedisConn → RedisConn
callback_end c = record c { redis_fns = without_front c.redis_fns }

-- Close and disconnectCallback, as far as the queue sees them.
unfoldable pub close : RedisConn → RedisConn
close c = record c { closed = true }
