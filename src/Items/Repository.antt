-- ===== src/Items/Repository.antt =====
-- App/modules/items/repository.py: the collection `holiday_items`.
pub mod Keys
use fastapi_newyear.Base.{
  ltb, ℕ, Bool, true, false, not, ◌&&◌, Option, none, some, List, Text, text_eq, ◌==◌,
}
use fastapi_newyear.Errors.{duplicate_key, other_error}
use fastapi_newyear.Models.Items.{HolidayItem, ItemStatus}
use fastapi_newyear.Env.{Env}
use fastapi_newyear.World.{
  World, Action, ◌>>=◌, ◌>>◌, pure, gets, or_raise, raise_if, modify, uuid4,
}
use fastapi_newyear.Users.Repository.{is_none}

-- A filter on a field that may be null: `{"title": None}` matches null alone.
abbrev pub same_text : Option Text → Option Text → Bool
same_text none none = true
same_text (some s) (some t) = text_eq s t
same_text _ _ = false

abbrev pub is_owner : ℕ → Option ℕ → Bool
is_owner owner_id none = false
is_owner owner_id (some o) = owner_id == o

unfoldable pub active_with_id : ℕ → HolidayItem → Bool
active_with_id item_id i = item_id == i.id && is_none i.deleted_at

unfoldable pub active_of_owner : ℕ → HolidayItem → Bool
active_of_owner owner_id i = is_owner owner_id i.owner_id && is_none i.deleted_at

abbrev pub not_excluded : Option ℕ → ℕ → Bool
not_excluded none id = true
not_excluded (some exclude_id) id = not (exclude_id == id)

unfoldable pub active_with_title : Option Text → ℕ → Option ℕ → HolidayItem → Bool
active_with_title title owner_id exclude_id i =
    same_text title i.title && active_of_owner owner_id i && not_excluded exclude_id i.id

unfoldable pub with_id : ℕ → HolidayItem → Bool
with_id item_id i = item_id == i.id

-- The index of `_id`: the collection has no other unique index.
unfoldable pub same_id : HolidayItem → HolidayItem → Bool
same_id a b = a.id == b.id

-- The fields of an update: one that is not set is `none`, and one that is set may be null.
pub record ItemData : Type 0 where
  pub title : Option (Option Text)
  pub description : Option (Option Text)
  pub status : Option (Option ItemStatus)

abbrev pub set_or {ℓ} : {A : Type ℓ} → Option A → A → A
set_or none a = a
set_or (some b) a = b

unfoldable pub new_item : ℕ → ℕ → ℕ → Text → Text → ItemStatus → HolidayItem
new_item id now owner_id title description status = record {
  id = id;
  owner_id = some owner_id;
  title = some title;
  description = some description;
  status = some status;
  created_at = now;
  updated_at = now;
  deleted_at = none;
}

unfoldable pub updated : ℕ → ItemData → HolidayItem → HolidayItem
updated now values i = record i {
  title = set_or values.title i.title;
  description = set_or values.description i.description;
  status = set_or values.status i.status;
  updated_at = now;
}

unfoldable pub deleted : ℕ → HolidayItem → HolidayItem
deleted now i = record i { deleted_at = some now; updated_at = now }

abbrev pub set_items : List HolidayItem → World → World
set_items c w = record w { db = record w.db { holiday_items = c } }

-- `2 ** 63 - 1`.
abbrev pub max_int64 : ℕ
max_int64 = 9223372036854775807

module _ ⦃env : Env⦄ where
  unfoldable pub get_active_by_id : ℕ → World → Option HolidayItem
  get_active_by_id item_id w = env.mongo.find_one (active_with_id item_id) w.db.holiday_items

  unfoldable pub get_active_by_title_for_owner :
      Option Text → ℕ → Option ℕ → World → Option HolidayItem
  get_active_by_title_for_owner title owner_id exclude_id w =
      env.mongo.find_one (active_with_title title owner_id exclude_id) w.db.holiday_items

  -- A page of the items, the newest first, and the number of all. BSON has no integer above
  -- `max_int64`: a larger `skip` raises `OverflowError`.
  unfoldable pub list_active_by_owner : ℕ → ℕ → ℕ → Action (List HolidayItem × ℕ)
  list_active_by_owner owner_id offset limit = do
    raise_if (ltb max_int64 offset) other_error
    found ← gets (λ w. env.mongo.find (active_of_owner owner_id) w.db.holiday_items)
    let sorted = env.mongo.sort_descending (λ (i : HolidayItem). i.created_at) found
    total ← gets (λ w. env.mongo.count_documents (active_of_owner owner_id) w.db.holiday_items)
    pure (env.mongo.limit limit (env.mongo.skip offset sorted), total)

  unfoldable pub create : Text → Text → ItemStatus → ℕ → Action HolidayItem
  unfolding uuid4
  create title description status owner_id = do
    now ← gets (λ w. w.now)
    id ← uuid4
    let item = new_item id now owner_id title description status
    items ← gets (λ w. w.db.holiday_items)
    stored ← or_raise (env.mongo.insert_one same_id item items) duplicate_key
    modify (set_items stored)
    pure item

  unfoldable pub update : HolidayItem → ItemData → Action (Option HolidayItem)
  update item values = do
    now ← gets (λ w. w.now)
    items ← gets (λ w. w.db.holiday_items)
    stored ←
        or_raise (env.mongo.update_one same_id (with_id item.id) (updated now values) items)
          duplicate_key
    modify (set_items stored)
    gets (get_active_by_id item.id)

  unfoldable pub soft_delete : HolidayItem → Action (Unit {0})
  soft_delete item = do
    now ← gets (λ w. w.now)
    items ← gets (λ w. w.db.holiday_items)
    stored ←
        or_raise (env.mongo.update_one same_id (with_id item.id) (deleted now) items) duplicate_key
    modify (set_items stored)
