-- ===== src/Common/Cache.antt =====
-- App/common/cache.py: `RedisCacheService`. Every method swallows `RedisError`; which calls of the
-- client raise it is up to the environment.
pub mod Client
pub mod Patterns
pub mod Locks
use fastapi_newyear.Base.{
  ℕ, Bool, true, false, Option, none, some, List, [], ◌∷◌, ◌==◌, strip_chars, if◌then◌else◌,
}
use fastapi_newyear.Errors.{ok, err, value_error}
use fastapi_newyear.Env.{Env}
use fastapi_newyear.Redis.{Part, free, Key, Value, lock_id, Pattern, Glob, part, star}
use fastapi_newyear.World.{World, Server, Action, ◌>>=◌, ◌>>◌, pure, raise_if, uuid4}

-- `str(part).strip(":")`: only a free text can have colons to strip.
strip_part : Part → Part
strip_part (free s) = free (strip_chars (λ c. c == b':') s)
strip_part p = p

strip_parts : List Part → List Part
unfolding strip_part
strip_parts [] = []
strip_parts (p ∷ ps) = strip_part p ∷ strip_parts ps

-- A method of the service, by its effect on the server at the time of the clock.
abbrev on_server : {A : Type 0} → (ℕ → Server → A × Server) → Action A
on_server f w = (ok (f w.now w.server).0, record w { server = (f w.now w.server).1 })

-- The pattern of a key that ends in `*`, and of one with `*` before its last part.
abbrev pub parts_of : Key → Pattern
parts_of [] = []
parts_of (a ∷ k) = part a ∷ parts_of k

abbrev pub then_star : Key → Pattern
then_star [] = star ∷ []
then_star (a ∷ k) = part a ∷ then_star k

abbrev pub then_star_part : Key → Part → Pattern
then_star_part [] b = star ∷ part b ∷ []
then_star_part (a ∷ k) b = part a ∷ then_star_part k b

module _ ⦃env : Env⦄ where
  -- `RedisCacheService.key`: the parts behind the prefix.
  unfoldable pub key : List Part → Key
  unfolding strip_parts
  key parts = free env.settings.redis_key_prefix ∷ strip_parts parts

  unfoldable pub is_available : Action Bool
  is_available = on_server (λ now s. Client.ping s)

  unfoldable pub get : Key → Action (Option Value)
  get k = on_server (λ now s. Client.get now k s)

  unfoldable pub set : Key → Value → ℕ → Action Bool
  set k v ttl = do raise_if (ttl == 0) value_error; on_server (λ now s. Client.set now k v ttl s)

  unfoldable pub del_key : Key → Action ℕ
  del_key k = on_server (λ now s. Client.delete now k s)

  unfoldable pub del_by_pattern : Pattern → Action ℕ
  del_by_pattern p = on_server (λ now s. Client.delete_by_pattern now p s)

  -- The lock's id, or `none` where the key is taken or Redis fails.
  unfoldable pub acquire_lock : Key → ℕ → Action (Option ℕ)
  acquire_lock k ttl = do
    raise_if (ttl == 0) value_error
    l ← uuid4
    acquired ← on_server (λ now s. Client.set_nx now k (lock_id l) ttl s)
    pure (if acquired then some l else none)

  unfoldable pub release_lock : Key → ℕ → World → World
  release_lock k l w = record w { server = (Client.compare_and_delete w.now k l w.server).1 }
