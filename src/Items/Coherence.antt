-- ===== src/Items/Coherence.antt =====
-- What a user reads of an item through the cache, and what the database says.
pub mod Commands
pub mod Creation
pub mod Pages
pub mod Runs
use fastapi_newyear.Base.{
  ℕ, ◌+◌, ltb, not, is_some, ◌≤◌, ◌<◌, ◌≡◌, refl, sym, ◌∙◌, ap, ◌&&◌, ◌⊎◌, inl, inr, Bool, true,
  false, Option, none, some, [], ◌∷◌, arith, ◌==◌, if◌then◌else◌, Option-cases, Bool-cases,
  text_eq_refl,
}
use fastapi_newyear.Errors.{Result, Result-cases, ok, err, not_found, forbidden}
use fastapi_newyear.Models.Items.{HolidayItem, ItemResponseDto}
use fastapi_newyear.Env.{Env}
use fastapi_newyear.Redis.{Dump, Key, Value, item, key_eq, word, num, glob_match}
use fastapi_newyear.World.{World, Db}
use fastapi_newyear.Common.Cache
use fastapi_newyear.Common.Cache.{then_star, then_star_part}
use fastapi_newyear.Common.Cache.Client
use fastapi_newyear.Common.Cache.Client.{peek}
use fastapi_newyear.Items.Repository.{active_with_id, is_owner, get_active_by_id}
use fastapi_newyear.Items.Schemas.{item_response}
use fastapi_newyear.Items.Service.{get_item, owned_item, cached_item, item_cache_key, item_from}

-- The answer without a cache.
unfoldable pub reading : Option HolidayItem → ℕ → Result ItemResponseDto
reading none u = err (not_found "Item not found")
reading (some i) u =
    if is_owner u i.owner_id
    then item_response i
    else err (forbidden "You do not have access to this item")

module _ ⦃env : Env⦄ where
  -- What the cache holds of an item, now or later, is the answer without it.
  abbrev pub IsCoherent : World → Type 0
  IsCoherent w =
      (j u t : ℕ) (v : Value)
      → w.now ≤ t
      → peek t (item_cache_key u j) w.server ≡ some v
      → cached_item v ≡ reading (get_active_by_id j w) u

  -- A read through a coherent cache answers as the database does, whichever calls of Redis fail.
  pub get_item_reads :
      (id u : ℕ) (w : World)
      → 0 < env.settings.items_cache_ttl_seconds
      → IsCoherent w
      → (get_item id u w).0 ≡ reading (get_active_by_id id w) u
  unfolding get_item item_from Cache.get Client.get Cache.set owned_item reading get_active_by_id
  get_item_reads id u w pos h = elim (Option-cases (peek w.now (item_cache_key u id) w.server)) [
    | inl empty ↦ ground arith
    | inr (v, e) ↦ ground (arith, h id u w.now v (omega arith) e)
  ]

  same_item :
      (u x id j : ℕ) → key_eq (item_cache_key u id) (item_cache_key x j) ≡ ((u == x) && (id == j))
  unfolding item_cache_key Cache.key
  same_item u x id j = ground (arith, text_eq_refl env.settings.redis_key_prefix)

  never_missing : (v : Value) → cached_item v ≡ err (not_found "Item not found") → ⊥
  unfolding cached_item
  never_missing v e = ground arith

  pub none≢some : {v : Value} → none ≡ some v → ⊥
  none≢some e = cc

  -- The cache is coherent again where, of each item and user, it has nothing, or has what it had
  -- while the database has what it had, or had nothing.
  pub IsCoherent-again :
      (w v : World)
      → IsCoherent w
      → w.now ≤ v.now
      → ((j x t : ℕ)
          → v.now ≤ t
          → (peek t (item_cache_key x j) v.server ≡ none)
            ⊎ ((peek t (item_cache_key x j) v.server ≡ peek t (item_cache_key x j) w.server)
                × ((get_active_by_id j v ≡ get_active_by_id j w) ⊎ (get_active_by_id j w ≡ none))))
      → IsCoherent v
  unfolding reading cached_item
  IsCoherent-again w v h later cases j x t value after e = elim (cases j x t after) [
    | inl gone ↦ absurd (none≢some (sym gone ∙ e))
    | inr (kept, same) ↦
        let old : cached_item value ≡ reading (get_active_by_id j w) x =
          h j x t value (omega arith) (sym kept ∙ e) in
        elim same [
          | inl alike ↦ old ∙ ap (λ (o : Option HolidayItem). reading o x) (sym alike)
          | inr missing ↦
              absurd
                (never_missing value (old ∙ ap (λ (o : Option HolidayItem). reading o x) missing))
        ]
  ]

  -- Whether a read that finds the item stores it.
  is_stored : ℕ → ℕ → World → Bool
  is_stored id u w =
      not (is_some (Client.get w.now (item_cache_key u id) w.server).0)
      && not (env.redis_fails (w.server.calls + 1))
      && ltb 0 env.settings.items_cache_ttl_seconds

  -- What a read adds to the cache is its answer.
  dump_read :
      (id u : ℕ) (w : World)
      → ((get_item id u w).1.server.dump ≡ w.server.dump)
        ⊎ ((r : ItemResponseDto) × (reading (get_active_by_id id w) u ≡ ok r)
            × ((get_item id u w).1.server.dump
                ≡ env.redis.set w.now
                    (item_cache_key u id)
                    (item r)
                    env.settings.items_cache_ttl_seconds
                    w.server.dump))
  unfolding get_item item_from Cache.get Client.get Cache.set Client.set owned_item reading
      get_active_by_id is_stored
  dump_read id u w = elim (Result-cases (reading (get_active_by_id id w) u)) [
    | inr (e, failed) ↦ inl (ground arith)
    | inl (r, found) ↦ elim (Bool-cases (is_stored id u w)) [
      | inl goes ↦ inr (r, found, ground arith)
      | inr stays ↦ inl (ground arith)
    ]
  ]

  pub get_item_frame :
      (id u : ℕ) (w : World) → ((get_item id u w).1.db ≡ w.db) × ((get_item id u w).1.now ≡ w.now)
  unfolding get_item item_from Cache.get Cache.set owned_item
  get_item_frame id u w = (ground arith, ground arith)

  pub active_same :
      (j : ℕ) (v w : World) → v.db ≡ w.db → get_active_by_id j v ≡ get_active_by_id j w
  unfolding get_active_by_id
  active_same j v w e = ap (λ (d : Db). env.mongo.find_one (active_with_id j) d.holiday_items) e

  cached_new :
      (id u j x t : ℕ) (r : ItemResponseDto) (v : Value) (w : World)
      → IsCoherent w
      → w.now ≤ t
      → reading (get_active_by_id id w) u ≡ ok r
      → env.redis.get t (item_cache_key x j) (
          env.redis.set w.now
            (item_cache_key u id)
            (item r)
            env.settings.items_cache_ttl_seconds
            w.server.dump)
        ≡ some v
      → cached_item v ≡ reading (get_active_by_id j w) x
  unfolding cached_item
  cached_new id u j x t r v w h after found e =
      let ttl = env.settings.items_cache_ttl_seconds in
      let law =
        env.redis.get-set t w.now (item_cache_key u id) (item_cache_key x j) (item r) ttl
          w.server.dump in
      elim (Bool-cases (key_eq (item_cache_key u id) (item_cache_key x j))) [
        | inr other ↦ h j x t v after (ground arith)
        | inl same ↦
            let ids : ((u == x) && (id == j)) ≡ true = ground (arith, same_item u x id j) in
            let user : u ≡ x = ground arith in
            let at : id ≡ j = ground arith in
            let value : v ≡ item r = ground arith in rw (value, sym user, sym at) (sym found)
      ]

  -- A read leaves a coherent cache coherent, whichever calls of Redis fail.
  pub IsCoherent-get_item : (id u : ℕ) (w : World) → IsCoherent w → IsCoherent (get_item id u w).1
  IsCoherent-get_item id u w h j x t v after e =
      let (same_db, same_now) = get_item_frame id u w in
      let later : w.now ≤ t = rw (← same_now) after in
      active_answer j x v (get_item id u w).1 w same_db (elim (dump_read id u w) [
        | inl kept ↦
            h j x t v later
              (sym (ap (λ (d : Dump). env.redis.get t (item_cache_key x j) d) kept) ∙ e)
        | inr (r, found, set) ↦
            cached_new id u j x t r v w h later found
              (sym (ap (λ (d : Dump). env.redis.get t (item_cache_key x j) d) set) ∙ e)
      ])
    where
      active_answer :
          (j x : ℕ) (v : Value) (a b : World)
          → a.db ≡ b.db
          → cached_item v ≡ reading (get_active_by_id j b) x
          → cached_item v ≡ reading (get_active_by_id j a) x
      active_answer j x v a b same_db answer =
          answer ∙ ap (λ (o : Option HolidayItem). reading o x) (sym (active_same j a b same_db))
