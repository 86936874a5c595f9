-- ===== src/Items/Nulls.antt =====
-- A patch that sets the title to null.
use fastapi_newyear.Base.{ℕ, ◌≡◌, ◌∙◌, ap, true, none, some, arith, IsUnique}
use fastapi_newyear.Errors.{err, validation_error, Result}
use fastapi_newyear.Models.Items.{HolidayItem, ItemResponseDto}
use fastapi_newyear.Env.{Env}
use fastapi_newyear.World.{World, Db}
use fastapi_newyear.Items.Repository.{
  ItemData, is_owner, get_active_by_id, get_active_by_title_for_owner, same_id, updated,
  active_with_id,
}
use fastapi_newyear.Items.Schemas.{item_response}
use fastapi_newyear.Items.Service.{owned_item, check_title, write_item, patch_item}
use fastapi_newyear.Items.Freshness.{invalidate_item_cache_frame, frame_user_items_cache}
use fastapi_newyear.Items.Freshness.Writes.{write_item_lem, get_active_by_id-written}

module _ ⦃env : Env⦄ where
  null_title_refused :
      (now : ℕ) (patch : ItemData) (i : HolidayItem)
      → patch.title ≡ some none
      → item_response (updated now patch i) ≡ err validation_error
  unfolding item_response updated
  null_title_refused now patch i null = ground arith

  patch_item_writes :
      (item_id u : ℕ) (patch : ItemData) (i : HolidayItem) (w : World)
      → get_active_by_id item_id w ≡ some i
      → is_owner u i.owner_id ≡ true
      → patch.title ≡ some none
      → get_active_by_title_for_owner none u (some item_id) w ≡ none
      → patch_item item_id patch u w ≡ write_item item_id i patch u w
  unfolding patch_item owned_item check_title
  patch_item_writes item_id u patch i w found own null free = ground arith

  -- A patch of the user's own item that sets the title to null, while no other item of the user has that
  -- title, ends in a validation error inside the handler, and the item is stored without a title
  -- all the same. No two items have one id.
  pub patch_item_null_title :
      (item_id u : ℕ) (patch : ItemData) (i : HolidayItem) (w : World)
      → IsUnique same_id w.db.holiday_items
      → get_active_by_id item_id w ≡ some i
      → is_owner u i.owner_id ≡ true
      → patch.title ≡ some none
      → get_active_by_title_for_owner none u (some item_id) w ≡ none
      → ((patch_item item_id patch u w).0 ≡ err validation_error)
        × (get_active_by_id item_id (patch_item item_id patch u w).1 ≡ some (updated w.now patch i))
        × ((updated w.now patch i).title ≡ none)
  unfolding updated get_active_by_id
  patch_item_null_title item_id u patch i w unique found own null free =
      let e =
        patch_item_writes item_id u patch i w found own null free
        ∙ write_item_lem item_id i patch w unique found u in
      (
        ap (λ (q : Result ItemResponseDto × World). q.0) e ∙ null_title_refused w.now patch i null,
        ap (λ (q : Result ItemResponseDto × World). get_active_by_id item_id q.1) e
            ∙ ap (λ (d : Db). env.mongo.find_one (active_with_id item_id) d.holiday_items)
                ((invalidate_item_cache_frame item_id _).0 ∙ (frame_user_items_cache u _).0)
            ∙ get_active_by_id-written item_id i patch w unique found,
        ground arith,
      )
