-- ===== src/Examples/Locks.antt =====
-- Witnesses of the theorems on the cache and its locks.
use fastapi_newyear.Base.{
  ℕ, ◌+◌, ◌*◌, ◌≡◌, refl, ◌≢◌, arith, codes, ◌∷◌, [], some, none, first, false,
}
use fastapi_newyear.Errors.{ok}
use fastapi_newyear.Redis.{Key, word, num, free, lock_id}
use fastapi_newyear.World.{World, uuid4}
use fastapi_newyear.Common.Cache.{acquire_lock, release_lock}
use fastapi_newyear.Common.Cache.Client
use fastapi_newyear.Common.Cache.Client.{peek}
use fastapi_newyear.Common.Cache.Locks.{acquire_lock_excludes, acquire-release_lock}
use fastapi_newyear.Examples.Environment.{env, empty_world}

abbrev lock : Key
lock = word "locks" ∷ free (codes "a@x") ∷ []

acquired : (acquire_lock lock 30 empty_world).0 ≡ ok (some 100)
unfolding acquire_lock uuid4 Client.set_nx fastapi_newyear.Examples.Keys.get
acquired = refl

acquire_excludes_example :
    (acquire_lock lock 30 (record (acquire_lock lock 30 empty_world).1 { now = 1000000005 })).0
    ≡ ok none
acquire_excludes_example =
    acquire_lock_excludes lock 30 30 100 1000000005 empty_world (ground arith) (ground arith)
      acquired

abbrev locked : World
locked = record empty_world {
  server = record {
    dump = record { key = lock; value = lock_id 100; deadline = some 30000000000 } ∷ [];
    calls = 1;
  };
  drawn = 1;
}

locked_holds : peek 1000000000 lock locked.server ≡ some (lock_id 100)
unfolding fastapi_newyear.Examples.Keys.get fastapi_newyear.Base.text_eq
locked_holds = refl

acquire_release_example : (acquire_lock lock 30 (release_lock lock 100 locked)).0 ≡ ok (some 101)
acquire_release_example =
    acquire-release_lock (λ n. refl) lock 30 100 locked (ground arith) locked_holds

abbrev jti : Key
jti = free (codes "wp") ∷ word "auth" ∷ word "user" ∷ num 103 ∷ word "access" ∷ num 105 ∷ []

abbrev user_keys : Key
user_keys = free (codes "wp") ∷ word "auth" ∷ word "user" ∷ num 103 ∷ word "access" ∷ []

abbrev other_keys : Key
other_keys = free (codes "wp") ∷ word "auth" ∷ word "user" ∷ num 203 ∷ word "access" ∷ []
