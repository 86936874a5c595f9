-- ===== src/Items/Coherence/Pages.antt =====
-- A page of items and the copies in the cache.
use fastapi_newyear.Base.{
  ℕ, ◌+◌, ◌-◌, ◌*◌, ◌≡◌, ◌∙◌, ap, ◌⊎◌, inl, inr, false, none, List, arith, Option-cases,
  text_eq_refl,
}
use fastapi_newyear.Errors.{Result, ok, err, Result-cases}
use fastapi_newyear.Models.Items.{HolidayItem, ItemListResponseDto}
use fastapi_newyear.Env.{Env}
use fastapi_newyear.Redis.{Dump, key_eq, items}
use fastapi_newyear.World.{World}
use fastapi_newyear.Common.Cache
use fastapi_newyear.Common.Cache.Client
use fastapi_newyear.Common.Cache.Client.{peek}
use fastapi_newyear.Items.Repository.{list_active_by_owner}
use fastapi_newyear.Items.Schemas.{PaginationDto, build}
use fastapi_newyear.Items.Service.{list_items, list_from, list_cache_key, item_cache_key}
use fastapi_newyear.Items.Coherence.{IsCoherent, IsCoherent-again, active_same}

module _ ⦃env : Env⦄ where
  list_is_no_item :
      (u page limit x j : ℕ) → key_eq (list_cache_key u page limit) (item_cache_key x j) ≡ false
  unfolding list_cache_key item_cache_key Cache.key
  list_is_no_item u page limit x j = ground (arith, text_eq_refl env.settings.redis_key_prefix)

  pub list_items_frame :
      (p : PaginationDto) (u : ℕ) (w : World)
      → ((list_items p u w).1.db ≡ w.db) × ((list_items p u w).1.now ≡ w.now)
  unfolding list_items list_from list_active_by_owner Cache.get Cache.set
  list_items_frame p u w = (ground arith, ground arith)

  dump-set :
      (p : PaginationDto) (u : ℕ) (r : ItemListResponseDto) (ttl : ℕ) (w : World)
      → ((Cache.set (list_cache_key u p.page p.limit) (items r) ttl w).1.server.dump
          ≡ w.server.dump)
        ⊎ ((Cache.set (list_cache_key u p.page p.limit) (items r) ttl w).1.server.dump
            ≡ env.redis.set w.now (list_cache_key u p.page p.limit) (items r) ttl w.server.dump)
  unfolding Cache.set Client.set
  dump-set p u r ttl w = ground arith

  server-list_from :
      (p : PaginationDto) (u : ℕ) (o : Result (List HolidayItem × ℕ)) (w : World)
      → list_active_by_owner u ((p.page - 1) * p.limit) p.limit w ≡ (o, w)
      → ((list_from p u none w).1.server ≡ w.server)
        ⊎ ((r : ItemListResponseDto) × ((list_from p u none w).1.server
              ≡ (Cache.set
                  (list_cache_key u p.page p.limit)
                  (items r)
                  env.settings.items_cache_ttl_seconds
                  w).1.server))
  unfolding list_from Cache.set
  server-list_from p u (err x) w e = inl (ground arith)
  server-list_from p u (ok q) w e = elim (Result-cases (build q.0 p.page p.limit q.1)) [
    | inr (x, failed) ↦ inl (ground arith)
    | inl (r, built) ↦ inr (r, ground arith)
  ]

  -- The repository only reads.
  list_active_by_owner_frame :
      (u offset limit : ℕ) (w : World) → (list_active_by_owner u offset limit w).1 ≡ w
  unfolding list_active_by_owner
  list_active_by_owner_frame u offset limit w = ground arith

  -- What a page may add to the server.
  dump-list_items :
      (p : PaginationDto) (u : ℕ) (w : World)
      → ((list_items p u w).1.server.dump ≡ w.server.dump)
        ⊎ ((r : ItemListResponseDto) × ((list_items p u w).1.server.dump
              ≡ env.redis.set w.now
                  (list_cache_key u p.page p.limit)
                  (items r)
                  env.settings.items_cache_ttl_seconds
                  w.server.dump))
  unfolding list_items list_from Cache.get Client.get
  dump-list_items p u w =
      let w1 = record w { server = record w.server { calls = w.server.calls + 1 } } in
      elim (Option-cases (Client.get w.now (list_cache_key u p.page p.limit) w.server).0) [
        | inr (v, cached) ↦ inl (ground arith)
        | inl empty ↦
            elim (server-list_from p u _ w1 (λ i. (
              (list_active_by_owner u ((p.page - 1) * p.limit) p.limit w1).0,
              list_active_by_owner_frame u ((p.page - 1) * p.limit) p.limit w1 i,
            ))) [
              | inl same ↦ inl (ground arith)
              | inr (r, wrote) ↦ elim (dump-set p u r env.settings.items_cache_ttl_seconds w1) [
                | inl kept ↦ inl (ground arith)
                | inr set ↦ inr (r, ground arith)
              ]
            ]
      ]

  peek-list_items :
      (p : PaginationDto) (u j x t : ℕ) (w : World)
      → peek t (item_cache_key x j) (list_items p u w).1.server
        ≡ peek t (item_cache_key x j) w.server
  peek-list_items p u j x t w =
      let k = item_cache_key x j in
      elim (dump-list_items p u w) [
        | inl same ↦ ap (λ (d : Dump). env.redis.get t k d) same
        | inr (r, set) ↦
            ap (λ (d : Dump). env.redis.get t k d) set
            ∙ ground (
              arith,
              env.redis.get-set t w.now (list_cache_key u p.page p.limit) k (items r)
                  env.settings.items_cache_ttl_seconds w.server.dump,
              list_is_no_item u p.page p.limit x j,
            )
      ]

  pub IsCoherent-list_items :
      (p : PaginationDto) (u : ℕ) (w : World) → IsCoherent w → IsCoherent (list_items p u w).1
  IsCoherent-list_items p u w h =
      let (same_db, same_now) = list_items_frame p u w in
      IsCoherent-again w (list_items p u w).1 h (omega (arith, same_now)) (λ j x t after.
        inr (peek-list_items p u j x t w, inl (active_same j (list_items p u w).1 w same_db)))
