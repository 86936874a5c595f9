-- ===== src/Web/Routers/Items.antt =====
-- App/modules/items/router.py.
use fastapi_newyear.Base.{ℕ}
use fastapi_newyear.Models.Accounts.{User}
use fastapi_newyear.Env.{Env}
use fastapi_newyear.World.{Action, ◌>>=◌, ◌>>◌, pure}
use fastapi_newyear.Items.Repository.{ItemData}
use fastapi_newyear.Items.Schemas.{ItemCreateDto, ItemUpdateDto, PaginationDto}
use fastapi_newyear.Items.Service
use fastapi_newyear.Web.{Response, plain, empty, item, items}

module _ ⦃env : Env⦄ where
  unfoldable pub list_items : PaginationDto → User → Action Response
  list_items p current_user = do
    r ← Service.list_items p current_user.id
    pure (plain 200 (items r))

  unfoldable pub get_item : ℕ → User → Action Response
  get_item item_id current_user = do
    r ← Service.get_item item_id current_user.id
    pure (plain 200 (item r))

  unfoldable pub create_item : ItemCreateDto → User → Action Response
  create_item payload current_user = do
    r ← Service.create_item payload current_user.id
    pure (plain 201 (item r))

  unfoldable pub put_item : ℕ → ItemUpdateDto → User → Action Response
  put_item item_id payload current_user = do
    r ← Service.put_item item_id payload current_user.id
    pure (plain 200 (item r))

  unfoldable pub patch_item : ℕ → ItemData → User → Action Response
  patch_item item_id payload current_user = do
    r ← Service.patch_item item_id payload current_user.id
    pure (plain 200 (item r))

  unfoldable pub delete_item : ℕ → User → Action Response
  delete_item item_id current_user = do
    Service.delete_item item_id current_user.id
    pure (plain 204 empty)
