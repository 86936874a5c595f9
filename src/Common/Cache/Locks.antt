-- ===== src/Common/Cache/Locks.antt =====
-- `acquire_lock` and `release_lock`: who holds a lock.
use fastapi_newyear.Base.{ℕ, ◌+◌, ◌*◌, ◌<◌, ◌≡◌, ◌≢◌, false, none, some, arith}
use fastapi_newyear.Errors.{ok}
use fastapi_newyear.Config.{second}
use fastapi_newyear.Env.{Env}
use fastapi_newyear.Redis.{Key, lock_id, key_eq_refl}
use fastapi_newyear.World.{World, uuid4}
use fastapi_newyear.Common.Cache.{acquire_lock, release_lock}
use fastapi_newyear.Common.Cache.Client.{peek, set_nx, compare_and_delete}

module _ ⦃env : Env⦄ where
  -- A lock that was granted is held under its id until its time to live has passed.
  peek-acquire_lock :
      (k : Key) (ttl l t : ℕ) (w : World)
      → (acquire_lock k ttl w).0 ≡ ok (some l)
      → t < w.now + ttl * second
      → peek t k (acquire_lock k ttl w).1.server ≡ some (lock_id l)
  unfolding acquire_lock uuid4 set_nx
  peek-acquire_lock k ttl l t w h early = ground (
    arith,
    env.redis.set_nx_lem w.now k (lock_id (env.uuid4 w.drawn)) ttl w.server.dump,
    env.redis.get-set t w.now k k (lock_id (env.uuid4 w.drawn)) ttl w.server.dump,
    key_eq_refl k,
  )

  -- Nobody is granted a lock that is held, whichever calls of the client fail.
  acquire_lock_held :
      (k : Key) (ttl l : ℕ) (w : World)
      → 0 < ttl
      → peek w.now k w.server ≡ some (lock_id l)
      → (acquire_lock k ttl w).0 ≡ ok none
  unfolding acquire_lock uuid4 set_nx
  acquire_lock_held k ttl l w pos held =
      ground (arith, env.redis.set_nx_lem w.now k (lock_id (env.uuid4 w.drawn)) ttl w.server.dump)

  -- Of two requests for one lock the second is refused, if it comes before the lock expires and the
  -- server has changed no further; whichever calls of the client fail.
  pub acquire_lock_excludes :
      (k : Key) (ttl ttl' l t : ℕ) (w : World)
      → 0 < ttl'
      → t < w.now + ttl * second
      → (acquire_lock k ttl w).0 ≡ ok (some l)
      → let w' = (acquire_lock k ttl w).1 in
        (acquire_lock k ttl' (record w' { now = t })).0 ≡ ok none
  acquire_lock_excludes k ttl ttl' l t w pos early h =
      acquire_lock_held k ttl' l _ pos (peek-acquire_lock k ttl l t w h early)

  -- A release deletes the lock of the caller alone: under another id the lock stays, and so does
  -- every other key.
  pub release_lock_other :
      (k : Key) (l m t : ℕ) (w : World)
      → peek w.now k w.server ≡ some (lock_id m)
      → l ≢ m
      → peek t k (release_lock k l w).server ≡ peek t k w.server
  unfolding release_lock compare_and_delete
  release_lock_other k l m t w held ne = ground arith

  -- After its holder's release, with the client working, the lock can be taken again.
  pub acquire-release_lock :
      (up : (n : ℕ) → env.redis_fails n ≡ false) (k : Key) (ttl l : ℕ) (w : World)
      → 0 < ttl
      → peek w.now k w.server ≡ some (lock_id l)
      → (acquire_lock k ttl (release_lock k l w)).0 ≡ ok (some (env.uuid4 w.drawn))
  unfolding acquire_lock uuid4 set_nx release_lock compare_and_delete
  acquire-release_lock up k ttl l w pos held = ground (
    arith,
    up w.server.calls,
    up (w.server.calls + 1),
    env.redis.get-delete w.now k k w.server.dump,
    key_eq_refl k,
    env.redis.set_nx_lem w.now k (lock_id (env.uuid4 w.drawn)) ttl
        (env.redis.delete k w.server.dump),
  )
