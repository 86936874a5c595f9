-- ===== src/Common/Cache/Client.antt =====
-- The calls of the Redis client in App/common/cache.py, each with the handler that turns a
-- `RedisError` into its result.
use fastapi_newyear.Base.{
  ℕ, ◌+◌, Bool, true, false, not, Option, none, some, List, [], ◌∷◌, ◌==◌, if◌then◌else◌, is_some,
}
use fastapi_newyear.Env.{Env}
use fastapi_newyear.Redis.{Key, Value, lock_id, Pattern}
use fastapi_newyear.World.{Server}

-- `redis.call("get", KEYS[1]) == ARGV[1]`.
abbrev pub holds : ℕ → Option Value → Bool
holds l (some (lock_id m)) = l == m
holds l _ = false

module _ ⦃env : Env⦄ where
  -- Whether the next call of the client raises, and the server after it was made.
  abbrev pub fails : Server → Bool
  fails s = env.redis_fails s.calls

  abbrev pub called : Server → Server
  called s = record s { calls = s.calls + 1 }

  -- What a key holds at a moment.
  abbrev pub peek : ℕ → Key → Server → Option Value
  peek t k s = env.redis.get t k s.dump

  unfoldable pub ping : Server → Bool × Server
  ping s = (not (fails s), called s)

  unfoldable pub get : ℕ → Key → Server → Option Value × Server
  get now k s = (if fails s then none else peek now k s, called s)

  unfoldable pub set : ℕ → Key → Value → ℕ → Server → Bool × Server
  set now k v ttl s =
      if fails s
      then (false, called s)
      else (true, record (called s) { dump = env.redis.set now k v ttl s.dump })

  unfoldable pub delete : ℕ → Key → Server → ℕ × Server
  delete now k s = if fails s then (0, called s) else (
    if is_some (peek now k s) then 1 else 0,
    record (called s) { dump = env.redis.delete k s.dump },
  )

  -- The loop of `delByPattern` over the keys of the scan: the first failure ends it.
  unfoldable pub delete_keys : ℕ → List Key → ℕ → Server → ℕ × Server
  unfolding delete
  delete_keys now [] deleted s = (deleted, s)
  delete_keys now (k ∷ ks) deleted s =
      let rest = delete_keys now ks (deleted + (delete now k s).0) (delete now k s).1 in
      if fails s then (deleted, called s) else rest

  unfoldable pub delete_by_pattern : ℕ → Pattern → Server → ℕ × Server
  delete_by_pattern now p s =
      if fails s then (0, called s) else delete_keys now (env.redis.scan now p s.dump) 0 (called s)

  unfoldable pub set_nx : ℕ → Key → Value → ℕ → Server → Bool × Server
  set_nx now k v ttl s =
      if fails s
      then (false, called s)
      else (let (done, dump) = env.redis.set_nx now k v ttl s.dump in
          (done, record (called s) { dump = dump }))

  -- The script of `release_lock`: it deletes the key if that holds this lock.
  unfoldable pub compare_and_delete : ℕ → Key → ℕ → Server → Bool × Server
  compare_and_delete now k l s =
      if fails s
      then (false, called s)
      else if holds l (peek now k s)
      then (true, record (called s) { dump = env.redis.delete k s.dump })
      else (false, called s)
