-- ===== src/Items/Freshness.antt =====
-- No answer about an item is older than the last change to it, where Redis works.
pub mod Writes
use fastapi_newyear.Base.{
  [], ◌∷◌, ℕ, ◌≤◌, ◌≡◌, refl, sym, ◌∙◌, ap, Bool, true, false, ◌&&◌, none, some, List, arith, first,
  update_first, IsUnique, first-update_first_out, first-update_first_in, first_passes, ==_refl,
  ◌==◌, text_eq_refl, Option-cases, Bool-cases, inl, inr, ◌<◌, ==_iff,
}
use fastapi_newyear.Errors.{ok, err, not_found}
use fastapi_newyear.Models.Items.{HolidayItem, ItemResponseDto}
use fastapi_newyear.Env.{Env}
use fastapi_newyear.Redis.{glob_match, word, num, free, part_eq}
use fastapi_newyear.World.{World, Db}
use fastapi_newyear.Common.Cache
use fastapi_newyear.Common.Cache.Client
use fastapi_newyear.Common.Cache.Client.{peek}
use fastapi_newyear.Common.Cache.{then_star_part, del_by_pattern}
use fastapi_newyear.Common.Cache.Patterns.{peek-del_by_pattern}
use fastapi_newyear.Items.Repository.Keys.{same_id-deleted, same_id-updated, same_id-with_id}
use fastapi_newyear.Items.Repository
use fastapi_newyear.Items.Repository.{
  ItemData, get_active_by_id, active_with_id, with_id, same_id, updated, deleted, soft_delete,
  update, is_owner,
}
use fastapi_newyear.Items.Schemas.{ItemUpdateDto, item_response}
use fastapi_newyear.Items.Service.{
  get_item, owned_item, put_item, patch_item, delete_item, invalidate_item_cache,
  invalidate_user_items_cache, item_cache_key,
}

module _ ⦃env : Env⦄ where
  invalidates_matching :
      (v item_id : ℕ)
      → glob_match
          (then_star_part
            (Cache.key (word "items" ∷ word "entity" ∷ word "user" ∷ []))
            (num item_id))
          (item_cache_key v item_id)
        ≡ true
  unfolding item_cache_key Cache.key
  invalidates_matching v item_id =
      ground (arith, text_eq_refl env.settings.redis_key_prefix, ==_refl item_id)

  pub invalidate_item_cache_frame :
      (item_id : ℕ) (w : World)
      → ((invalidate_item_cache item_id w).1.db ≡ w.db)
        × ((invalidate_item_cache item_id w).1.now ≡ w.now)
  unfolding invalidate_item_cache del_by_pattern
  invalidate_item_cache_frame item_id w = (refl, refl)

  -- After the deletion no user has the item in the cache.
  pub peek-invalidate_item_cache :
      (up : (n : ℕ) → env.redis_fails n ≡ false) (v item_id t : ℕ) (w : World)
      → w.now ≤ t
      → peek t (item_cache_key v item_id) (invalidate_item_cache item_id w).1.server ≡ none
  unfolding invalidate_item_cache
  peek-invalidate_item_cache up v item_id t w later =
      peek-del_by_pattern up t _ _ w later (invalidates_matching v item_id)

  get_item_missing :
      (item_id v : ℕ) (w : World)
      → peek w.now (item_cache_key v item_id) w.server ≡ none
      → get_active_by_id item_id w ≡ none
      → (get_item item_id v w).0 ≡ err (not_found "Item not found")
  unfolding get_item Cache.get Client.get owned_item get_active_by_id
  get_item_missing item_id v w uncached missing = ground arith

  pub get_item_found :
      (item_id v : ℕ) (w : World) (i : HolidayItem) (r : ItemResponseDto)
      → 0 < env.settings.items_cache_ttl_seconds
      → peek w.now (item_cache_key v item_id) w.server ≡ none
      → get_active_by_id item_id w ≡ some i
      → is_owner v i.owner_id ≡ true
      → item_response i ≡ ok r
      → (get_item item_id v w).0 ≡ ok r
  unfolding get_item Cache.get Client.get Cache.set owned_item get_active_by_id
  get_item_found item_id v w i r pos uncached found own valid = ground arith

  deleted_unlisted :
      (item_id now : ℕ) (i : HolidayItem) → active_with_id item_id (deleted now i) ≡ false
  unfolding active_with_id deleted
  deleted_unlisted item_id now i = ground arith

  same_id_active :
      (item_id : ℕ) (a b : HolidayItem)
      → active_with_id item_id a ≡ true
      → active_with_id item_id b ≡ true
      → same_id a b ≡ true
  unfolding same_id active_with_id
  same_id_active item_id a b ha hb = ground arith

  pub active_has_id :
      (item_id : ℕ) (i : HolidayItem) → active_with_id item_id i ≡ true → with_id i.id i ≡ true
  unfolding active_with_id with_id
  active_has_id item_id i h = ground arith

  pub delete_item_succeeds :
      (item_id u : ℕ) (w : World)
      → (delete_item item_id u w).0 ≡ ok tt
      → (i : HolidayItem) × (get_active_by_id item_id w ≡ some i) × (is_owner u i.owner_id ≡ true)
  unfolding delete_item owned_item
  delete_item_succeeds item_id u w h = elim (Option-cases (get_active_by_id item_id w)) [
    | inl missing ↦ ground arith
    | inr (i, found) ↦ elim (Bool-cases (is_owner u i.owner_id)) [
      | inl own ↦ (i, found, own)
      | inr other ↦ ground arith
    ]
  ]

  pub after_delete :
      (item_id u : ℕ) (i : HolidayItem) (w : World)
      → get_active_by_id item_id w ≡ some i
      → is_owner u i.owner_id ≡ true
      → (delete_item item_id u w).1
        ≡ (invalidate_item_cache item_id
            (invalidate_user_items_cache u (
              Repository.set_items
                (update_first (with_id i.id) (deleted w.now) w.db.holiday_items)
                w)).1).1
  unfolding delete_item owned_item soft_delete invalidate_user_items_cache invalidate_item_cache
      del_by_pattern
  after_delete item_id u i w found own = ground (
    arith,
    env.mongo.update_one_lem same_id (with_id i.id) (deleted w.now) w.db.holiday_items
        (same_id-deleted w.now),
  )

  pub frame_user_items_cache :
      (u : ℕ) (w : World)
      → ((invalidate_user_items_cache u w).1.db ≡ w.db)
        × ((invalidate_user_items_cache u w).1.now ≡ w.now)
  unfolding invalidate_user_items_cache del_by_pattern
  frame_user_items_cache u w = (refl, refl)

  -- Once a deletion has succeeded, with no call of Redis failing and no two items of one id, every
  -- user gets 404 for the item, at any later time: no copy of it is left in the cache.
  pub get_item-delete_item :
      (up : (n : ℕ) → env.redis_fails n ≡ false) (item_id u v t : ℕ) (w : World)
      → IsUnique same_id w.db.holiday_items
      → w.now ≤ t
      → (delete_item item_id u w).0 ≡ ok tt
      → (get_item item_id v (record (delete_item item_id u w).1 { now = t })).0
        ≡ err (not_found "Item not found")
  unfolding get_active_by_id
  get_item-delete_item up item_id u v t w unique later h =
      let (i, found, own) = delete_item_succeeds item_id u w h in
      let c' : List HolidayItem = update_first (with_id i.id) (deleted w.now) w.db.holiday_items in
      let w1 : World = (invalidate_user_items_cache u (Repository.set_items c' w)).1 in
      let e : first (active_with_id item_id) w.db.holiday_items ≡ some i =
        sym (env.mongo.find_one_lem (active_with_id item_id) w.db.holiday_items) ∙ found in
      let gone : first (active_with_id item_id) c' ≡ none =
        first-update_first_out same_id (active_with_id item_id) (with_id i.id) (deleted w.now)
          (same_id_active item_id) (same_id-with_id i.id) (deleted_unlisted item_id w.now)
          w.db.holiday_items i unique e
          (active_has_id item_id i (first_passes _ w.db.holiday_items i e)) in
      rw (after_delete item_id u i w found own) (
        get_item_missing item_id v (record (invalidate_item_cache item_id w1).1 { now = t })
          (peek-invalidate_item_cache up v item_id t w1
            (rw (frame_user_items_cache u (Repository.set_items c' w)).1 later))
          (env.mongo.find_one_lem (active_with_id item_id) _
            ∙ ap (λ (d : Db). first (active_with_id item_id) d.holiday_items)
                ((invalidate_item_cache_frame item_id w1).0
                  ∙ (frame_user_items_cache u (Repository.set_items c' w)).0)
            ∙ gone))
