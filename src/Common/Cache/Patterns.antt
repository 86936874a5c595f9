-- ===== src/Common/Cache/Patterns.antt =====
-- What `delByPattern` leaves behind.
use fastapi_newyear.Base.{
  ℕ, ◌+◌, ◌≤◌, ◌≡◌, refl, true, false, none, List, [], ◌∷◌, arith, if◌then◌else◌, Bool-cases, inl,
  inr, sym, ◌∙◌, Option-cases,
}
use mathlib.Core.Bool.{false≢true}
use fastapi_newyear.Common.Cache.{del_by_pattern}
use fastapi_newyear.Env.{Env}
use fastapi_newyear.Redis.{Key, Pattern, key_eq, glob_match, listed}
use fastapi_newyear.World.{World, Server}
use fastapi_newyear.Common.Cache.Client.{
  peek, fails, called, delete, delete_keys, delete_by_pattern,
}

module _ ⦃env : Env⦄ where
  pub peek-delete :
      (t now : ℕ) (k j : Key) (s : Server)
      → peek t k (delete now j s).1
        ≡ (if fails s then peek t k s else if key_eq j k then none else peek t k s)
  unfolding delete
  peek-delete t now k j s = ground (arith, env.redis.get-delete t j k s.dump)

  peek-delete_keys_other :
      (t now : ℕ) (k : Key) (ks : List Key) (n : ℕ) (s : Server)
      → listed k ks ≡ false
      → peek t k (delete_keys now ks n s).1 ≡ peek t k s
  unfolding delete_keys
  peek-delete_keys_other t now k [] n s h = refl
  peek-delete_keys_other t now k (j ∷ ks) n s h = ground (
    arith,
    peek-delete t now k j s,
    peek-delete_keys_other t now k ks (n + (delete now j s).0) (delete now j s).1,
  )

  module _ (up : (n : ℕ) → env.redis_fails n ≡ false) where
    peek-delete_keys :
        (t now : ℕ) (k : Key) (ks : List Key) (n : ℕ) (s : Server)
        → peek t k (delete_keys now ks n s).1 ≡ (if listed k ks then none else peek t k s)
    unfolding delete_keys
    peek-delete_keys t now k [] n s = refl
    peek-delete_keys t now k (j ∷ ks) n s = ground (
      arith,
      up s.calls,
      peek-delete t now k j s,
      peek-delete_keys t now k ks (n + (delete now j s).0) (delete now j s).1,
    )

  -- The keys of a scan match its pattern, and those that are not listed there have expired.
  scan_listed :
      (t : ℕ) (p : Pattern) (k : Key) (s : Server)
      → listed k (env.redis.scan t p s.dump) ≡ true
      → glob_match p k ≡ true
  scan_listed t p k s h = env.redis.scan_sound t p k s.dump h

  scan_unlisted :
      (t : ℕ) (p : Pattern) (k : Key) (s : Server)
      → glob_match p k ≡ true
      → listed k (env.redis.scan t p s.dump) ≡ false
      → peek t k s ≡ none
  scan_unlisted t p k s m h = elim (Option-cases (peek t k s)) [
    | inl gone ↦ gone
    | inr (v, e) ↦
        absurd (false≢true (sym h ∙ env.redis.scan_complete t p k s.dump (λ g. cc (e, g)) m))
  ]

  -- Deleting by a pattern leaves every key that does not match it as it was, whichever calls of the
  -- client fail.
  pub peek-del_by_pattern_other :
      (t : ℕ) (p : Pattern) (k : Key) (w : World)
      → glob_match p k ≡ false
      → peek t k (del_by_pattern p w).1.server ≡ peek t k w.server
  unfolding del_by_pattern delete_by_pattern
  peek-del_by_pattern_other t p k w m =
      elim (Bool-cases (listed k (env.redis.scan w.now p w.server.dump))) [
        | inl h ↦ absurd (false≢true (sym m ∙ scan_listed w.now p k w.server h))
        | inr h ↦ ground (
          arith,
          peek-delete_keys_other t w.now k (env.redis.scan w.now p w.server.dump) 0
              (called w.server) h,
        )
      ]

  -- Where no call of the client fails, deleting by a pattern leaves no key that matches it, from then
  -- on.
  pub peek-del_by_pattern :
      (up : (n : ℕ) → env.redis_fails n ≡ false) (t : ℕ) (p : Pattern) (k : Key) (w : World)
      → w.now ≤ t
      → glob_match p k ≡ true
      → peek t k (del_by_pattern p w).1.server ≡ none
  unfolding del_by_pattern delete_by_pattern
  peek-del_by_pattern up t p k w later m =
      elim (Bool-cases (listed k (env.redis.scan w.now p w.server.dump))) [
        | inl h ↦ ground (
          arith,
          up w.server.calls,
          peek-delete_keys up t w.now k (env.redis.scan w.now p w.server.dump) 0 (called w.server),
        )
        | inr h ↦ ground (
          arith,
          up w.server.calls,
          peek-delete_keys up t w.now k (env.redis.scan w.now p w.server.dump) 0 (called w.server),
          env.redis.get_later w.now t k w.server.dump later (scan_unlisted w.now p k w.server m h),
        )
      ]
