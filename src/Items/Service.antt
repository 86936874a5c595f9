-- ===== src/Items/Service.antt =====
-- App/modules/items/service.py: `ItemService`, the items of a user behind a cache of pages and items.
use fastapi_newyear.Base.{ℕ, ◌-◌, ◌*◌, not, Option, none, some, [], ◌∷◌, Text, is_some}
use fastapi_newyear.Errors.{Result, ok, err, validation_error, not_found, forbidden, conflict}
use fastapi_newyear.Models.Items.{HolidayItem, ItemResponseDto, ItemListResponseDto}
use fastapi_newyear.Env.{Env}
use fastapi_newyear.Redis.{Key, Value, item, items, word, num}
use fastapi_newyear.World.{Action, ◌>>=◌, ◌>>◌, pure, gets, lift, or_raise, raise_if}
use fastapi_newyear.Common.Cache
use fastapi_newyear.Common.Cache.{then_star, then_star_part}
use fastapi_newyear.Items.Repository
use fastapi_newyear.Items.Repository.{ItemData, is_owner}
use fastapi_newyear.Items.Schemas.{
  ItemCreateDto, ItemUpdateDto, PaginationDto, update_data, item_response, build,
}

-- `model_validate` of what the cache holds.
unfoldable pub cached_list : Value → Result ItemListResponseDto
cached_list (items r) = ok r
cached_list _ = err validation_error

unfoldable pub cached_item : Value → Result ItemResponseDto
cached_item (item r) = ok r
cached_item _ = err validation_error

-- `model_validate(None)` raises.
unfoldable pub updated_response : Option HolidayItem → Result ItemResponseDto
updated_response none = err validation_error
updated_response (some i) = item_response i

module _ ⦃env : Env⦄ where
  unfoldable pub list_cache_key : ℕ → ℕ → ℕ → Key
  list_cache_key user_id page limit = Cache.key (
      word "items"
      ∷ word "list"
      ∷ word "user"
      ∷ num user_id
      ∷ word "page"
      ∷ num page
      ∷ word "limit"
      ∷ num limit
      ∷ [])

  unfoldable pub item_cache_key : ℕ → ℕ → Key
  item_cache_key user_id item_id =
      Cache.key (word "items" ∷ word "entity" ∷ word "user" ∷ num user_id ∷ num item_id ∷ [])

  unfoldable pub invalidate_user_items_cache : ℕ → Action ℕ
  invalidate_user_items_cache user_id =
      Cache.del_by_pattern
        (then_star (Cache.key (word "items" ∷ word "list" ∷ word "user" ∷ num user_id ∷ [])))

  unfoldable pub invalidate_item_cache : ℕ → Action ℕ
  invalidate_item_cache item_id =
      Cache.del_by_pattern
        (then_star_part (Cache.key (word "items" ∷ word "entity" ∷ word "user" ∷ [])) (num item_id))

  -- The two ways on from the cache.
  unfoldable pub list_from : PaginationDto → ℕ → Option Value → Action ItemListResponseDto
  list_from p user_id (some v) = lift (cached_list v)
  list_from p user_id none = do
    (found, total) ← Repository.list_active_by_owner user_id ((p.page - 1) * p.limit) p.limit
    response ← lift (build found p.page p.limit total)
    Cache.set (list_cache_key user_id p.page p.limit) (items response)
        env.settings.items_cache_ttl_seconds
    pure response

  unfoldable pub list_items : PaginationDto → ℕ → Action ItemListResponseDto
  unfolding list_from
  list_items p user_id = Cache.get (list_cache_key user_id p.page p.limit) >>= list_from p user_id

  -- What `get_item`, `put_item`, `patch_item` and `delete_item` start with.
  unfoldable pub owned_item : ℕ → ℕ → Action HolidayItem
  owned_item item_id user_id = do
    found ← gets (Repository.get_active_by_id item_id)
    i ← or_raise found (not_found "Item not found")
    raise_if (not (is_owner user_id i.owner_id)) (forbidden "You do not have access to this item")
    pure i

  unfoldable pub item_from : ℕ → ℕ → Option Value → Action ItemResponseDto
  item_from item_id user_id (some v) = lift (cached_item v)
  item_from item_id user_id none = do
    i ← owned_item item_id user_id
    response ← lift (item_response i)
    Cache.set (item_cache_key user_id item_id) (item response) env.settings.items_cache_ttl_seconds
    pure response

  unfoldable pub get_item : ℕ → ℕ → Action ItemResponseDto
  unfolding item_from
  get_item item_id user_id =
      Cache.get (item_cache_key user_id item_id) >>= item_from item_id user_id

  -- The check of the title against the user's other items.
  unfoldable pub check_title : Option Text → ℕ → Option ℕ → Action (Unit {0})
  check_title title user_id exclude_id = do
    duplicate ← gets (Repository.get_active_by_title_for_owner title user_id exclude_id)
    raise_if (is_some duplicate) (conflict "You already have an active item with this title")

  unfoldable pub create_item : ItemCreateDto → ℕ → Action ItemResponseDto
  create_item payload user_id = do
    check_title (some payload.title) user_id none
    i ← Repository.create payload.title payload.description payload.status user_id
    invalidate_user_items_cache user_id
    lift (item_response i)

  -- What `put_item` and `patch_item` end with.
  unfoldable pub write_item : ℕ → HolidayItem → ItemData → ℕ → Action ItemResponseDto
  write_item item_id i values user_id = do
    updated ← Repository.update i values
    invalidate_user_items_cache user_id
    invalidate_item_cache item_id
    lift (updated_response updated)

  unfoldable pub put_item : ℕ → ItemUpdateDto → ℕ → Action ItemResponseDto
  put_item item_id payload user_id = do
    i ← owned_item item_id user_id
    check_title (some payload.title) user_id (some item_id)
    write_item item_id i (update_data payload) user_id

  -- `if "title" in patch_data`.
  unfoldable pub check_patch : Option (Option Text) → ℕ → ℕ → Action (Unit {0})
  check_patch none item_id user_id = pure tt
  check_patch (some title) item_id user_id = check_title title user_id (some item_id)

  unfoldable pub patch_item : ℕ → ItemData → ℕ → Action ItemResponseDto
  unfolding check_patch
  patch_item item_id patch_data user_id = do
    i ← owned_item item_id user_id
    check_patch patch_data.title item_id user_id
    write_item item_id i patch_data user_id

  unfoldable pub delete_item : ℕ → ℕ → Action (Unit {0})
  delete_item item_id user_id = do
    i ← owned_item item_id user_id
    Repository.soft_delete i
    invalidate_user_items_cache user_id
    invalidate_item_cache item_id
    pure tt
