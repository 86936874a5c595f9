-- ===== src/Items/Freshness/Writes.antt =====
-- What is read after `put_item` and `patch_item`.
use fastapi_newyear.Base.{
  ℕ, ◌≤◌, ◌<◌, ◌≡◌, refl, sym, ◌∙◌, ap, true, false, some, arith, first, update_first, IsUnique,
  first-update_first_in, first_passes, Option-cases, Bool-cases, inl, inr,
}
use fastapi_newyear.Errors.{ok, Result}
use fastapi_newyear.Models.Items.{HolidayItem, ItemResponseDto}
use fastapi_newyear.Env.{Env}
use fastapi_newyear.World.{World, Db}
use fastapi_newyear.Common.Cache.{del_by_pattern}
use fastapi_newyear.Items.Repository.Keys.{same_id-updated, same_id-with_id}
use fastapi_newyear.Items.Repository.{
  ItemData, is_owner, get_active_by_id, active_with_id, with_id, same_id, updated, update,
  set_items,
}
use fastapi_newyear.Items.Schemas.{ItemUpdateDto, item_response, update_data}
use fastapi_newyear.Items.Service.{
  get_item, owned_item, check_title, write_item, put_item, patch_item, invalidate_item_cache,
  invalidate_user_items_cache, updated_response,
}
use fastapi_newyear.Items.Freshness.{
  invalidate_item_cache_frame, peek-invalidate_item_cache, get_item_found, active_has_id,
  frame_user_items_cache,
}

module _ ⦃env : Env⦄ where
  still_active :
      (item_id now : ℕ) (values : ItemData) (a : HolidayItem)
      → active_with_id item_id (updated now values a) ≡ active_with_id item_id a
  unfolding active_with_id updated
  still_active item_id now values a = refl

  still_owned :
      (u now : ℕ) (values : ItemData) (a : HolidayItem)
      → is_owner u (updated now values a).owner_id ≡ is_owner u a.owner_id
  unfolding updated
  still_owned u now values a = refl

  active_id : (item_id : ℕ) (i : HolidayItem) → active_with_id item_id i ≡ true → i.id ≡ item_id
  unfolding active_with_id
  active_id item_id i h = ground arith

  module _ (item_id : ℕ) (i : HolidayItem) (values : ItemData) (w : World)
      (unique : IsUnique same_id w.db.holiday_items)
      (found : get_active_by_id item_id w ≡ some i) where
    abbrev written : World
    written = set_items (update_first (with_id i.id) (updated w.now values) w.db.holiday_items) w

    found_first : first (active_with_id item_id) w.db.holiday_items ≡ some i
    unfolding get_active_by_id
    found_first = sym (env.mongo.find_one_lem (active_with_id item_id) w.db.holiday_items) ∙ found

    found_id : i.id ≡ item_id
    found_id =
        active_id item_id i (first_passes (active_with_id item_id) w.db.holiday_items i found_first)

    -- The item is found again, with the new values.
    pub get_active_by_id-written : get_active_by_id item_id written ≡ some (updated w.now values i)
    unfolding get_active_by_id
    get_active_by_id-written =
        env.mongo.find_one_lem (active_with_id item_id) written.db.holiday_items
        ∙ first-update_first_in same_id (active_with_id item_id) (with_id i.id)
            (updated w.now values) (same_id-with_id i.id) (still_active item_id w.now values)
            w.db.holiday_items i unique found_first
            (active_has_id item_id i
              (first_passes (active_with_id item_id) w.db.holiday_items i found_first))

    -- The answer and the state of a write.
    pub write_item_lem :
        (u : ℕ)
        → write_item item_id i values u w ≡ (
          item_response (updated w.now values i),
          (invalidate_item_cache item_id (invalidate_user_items_cache u written).1).1,
        )
    unfolding write_item update invalidate_user_items_cache invalidate_item_cache del_by_pattern
        updated_response
    write_item_lem u =
        let again : get_active_by_id i.id written ≡ some (updated w.now values i) =
          ap (λ (n : ℕ). get_active_by_id n written) found_id ∙ get_active_by_id-written in
        ground (
          arith,
          env.mongo.update_one_lem same_id (with_id i.id) (updated w.now values) w.db.holiday_items
              (same_id-updated w.now values),
        )

    get_item-write_item :
        (up : (n : ℕ) → env.redis_fails n ≡ false) (u t : ℕ) (r : ItemResponseDto)
        → 0 < env.settings.items_cache_ttl_seconds
        → w.now ≤ t
        → is_owner u i.owner_id ≡ true
        → (write_item item_id i values u w).0 ≡ ok r
        → (get_item item_id u (record (write_item item_id i values u w).1 { now = t })).0 ≡ ok r
    unfolding get_active_by_id
    get_item-write_item up u t r pos later own h =
        let w1 : World = (invalidate_user_items_cache u written).1 in
        let answer : item_response (updated w.now values i) ≡ ok r =
          sym (ap (λ (q : Result ItemResponseDto × World). q.0) (write_item_lem u)) ∙ h in
        rw (write_item_lem u) (
          get_item_found item_id u (record (invalidate_item_cache item_id w1).1 { now = t })
            (updated w.now values i) r pos
            (peek-invalidate_item_cache up u item_id t w1
              (rw (frame_user_items_cache u written).1 later))
            (ap (λ (d : Db). env.mongo.find_one (active_with_id item_id) d.holiday_items)
                ((invalidate_item_cache_frame item_id w1).0 ∙ (frame_user_items_cache u written).0)
              ∙ get_active_by_id-written)
            (still_owned u w.now values i ∙ own) answer)

  put_item_cases :
      (item_id u : ℕ) (payload : ItemUpdateDto) (w : World) (r : ItemResponseDto)
      → (put_item item_id payload u w).0 ≡ ok r
      → (i : HolidayItem) × (get_active_by_id item_id w ≡ some i)
        × (is_owner u i.owner_id ≡ true)
        × (put_item item_id payload u w ≡ write_item item_id i (update_data payload) u w)
  unfolding put_item owned_item check_title
  put_item_cases item_id u payload w r h = elim (Option-cases (get_active_by_id item_id w)) [
    | inl missing ↦ ground arith
    | inr (i, found) ↦ elim (Bool-cases (is_owner u i.owner_id)) [
      | inl own ↦ (i, found, own, ground arith)
      | inr other ↦ ground arith
    ]
  ]

  patch_item_cases :
      (item_id u : ℕ) (patch : ItemData) (w : World) (r : ItemResponseDto)
      → (patch_item item_id patch u w).0 ≡ ok r
      → (i : HolidayItem) × (get_active_by_id item_id w ≡ some i)
        × (is_owner u i.owner_id ≡ true)
        × (patch_item item_id patch u w ≡ write_item item_id i patch u w)
  unfolding patch_item owned_item check_title
  patch_item_cases item_id u patch w r h = elim (Option-cases (get_active_by_id item_id w)) [
    | inl missing ↦ ground arith
    | inr (i, found) ↦ elim (Bool-cases (is_owner u i.owner_id)) [
      | inl own ↦ (i, found, own, ground arith)
      | inr other ↦ ground arith
    ]
  ]

  -- What a replacement answers is what the owner reads at any later time, where no call of Redis fails, the
  -- cache's time to live is positive, and no two items have one id.
  pub get_item-put_item :
      (up : (n : ℕ) → env.redis_fails n ≡ false) (item_id u t : ℕ) (payload : ItemUpdateDto)
      (w : World) (r : ItemResponseDto)
      → 0 < env.settings.items_cache_ttl_seconds
      → IsUnique same_id w.db.holiday_items
      → w.now ≤ t
      → (put_item item_id payload u w).0 ≡ ok r
      → (get_item item_id u (record (put_item item_id payload u w).1 { now = t })).0 ≡ ok r
  get_item-put_item up item_id u t payload w r pos unique later h =
      let (i, found, own, e) = put_item_cases item_id u payload w r h in
      rw e (
        get_item-write_item item_id i (update_data payload) w unique found up u t r pos later own
          (sym (ap (λ (q : Result ItemResponseDto × World). q.0) e) ∙ h))

  -- What a patch answers is what the owner reads at any later time, under the same conditions: no call of Redis
  -- fails, the cache's time to live is positive, and no two items have one id.
  pub get_item-patch_item :
      (up : (n : ℕ) → env.redis_fails n ≡ false) (item_id u t : ℕ) (patch : ItemData) (w : World)
      (r : ItemResponseDto)
      → 0 < env.settings.items_cache_ttl_seconds
      → IsUnique same_id w.db.holiday_items
      → w.now ≤ t
      → (patch_item item_id patch u w).0 ≡ ok r
      → (get_item item_id u (record (patch_item item_id patch u w).1 { now = t })).0 ≡ ok r
  get_item-patch_item up item_id u t patch w r pos unique later h =
      let (i, found, own, e) = patch_item_cases item_id u patch w r h in
      rw e (
        get_item-write_item item_id i patch w unique found up u t r pos later own
          (sym (ap (λ (q : Result ItemResponseDto × World). q.0) e) ∙ h))
