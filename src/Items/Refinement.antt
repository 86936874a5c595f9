-- ===== src/Items/Refinement.antt =====
-- The items as their users see them, a map from ids to notes, and the operations of `ItemService` as
-- operations on that map. Deleted items, the times and the copies in Redis are not in it.
pub mod Writes
pub mod Creation
pub mod Commands
use fastapi_newyear.Base.{
  ℕ, ◌≡◌, refl, sym, ◌∙◌, ap, Bool, true, false, ◌&&◌, not, Option, none, some, List, [], ◌∷◌, ◌++◌,
  Text, arith, first, has, update_first, first-append, has-first, has_less, first-update_first_in,
  first-update_first_out, is_some, ◌==◌, if◌then◌else◌, Option-cases, Bool-cases, inl, inr,
}
use fastapi_newyear.Models.Items.{HolidayItem, ItemStatus}
use fastapi_newyear.Env.{Env}
use fastapi_newyear.World.{World, Db, uuid4}
use fastapi_newyear.Common.Cache.{del_by_pattern}
use fastapi_newyear.Users.Repository.{is_none}
use fastapi_newyear.Items.Repository.{
  ItemData, set_or, is_owner, active_with_id, active_with_title, with_id, same_id, new_item,
  updated, deleted, get_active_by_id, get_active_by_title_for_owner, create,
}
use fastapi_newyear.Items.Repository.Keys.{same_id-with_id}
use fastapi_newyear.Items.Schemas.{ItemCreateDto, ItemUpdateDto, update_data}
use fastapi_newyear.Items.Service.{
  owned_item, check_title, check_patch, write_item, create_item, put_item, patch_item, delete_item,
  invalidate_user_items_cache,
}
use fastapi_newyear.Items.Freshness.{
  after_delete, invalidate_item_cache_frame, frame_user_items_cache,
}
use fastapi_newyear.Items.Titles.{IsWellFormed, found_item}
use fastapi_newyear.Items.Titles.Operations.{items-write_item, found_first}

pub record Note : Type 0 where
  pub owner_id : Option ℕ
  pub title : Option Text
  pub description : Option Text
  pub status : Option ItemStatus

abbrev pub Notes : Type 0
Notes = ℕ → Option Note

unfoldable pub note : HolidayItem → Note
note i = record {
  owner_id = i.owner_id;
  title = i.title;
  description = i.description;
  status = i.status;
}

unfoldable pub note_of : Option HolidayItem → Option Note
note_of none = none
note_of (some i) = some (note i)

-- The requests that change items, with the id of the item.
pub data Command : Type 0 where
  creation : ItemCreateDto → Command
  replacement : ℕ → ItemUpdateDto → Command
  patch : ℕ → ItemData → Command
  deletion : ℕ → Command

unfoldable pub is_owned : ℕ → Option Note → Bool
is_owned u none = false
is_owned u (some n) = is_owner u n.owner_id

unfoldable pub changed : ItemData → Note → Note
changed d n = record {
  owner_id = n.owner_id;
  title = set_or d.title n.title;
  description = set_or d.description n.description;
  status = set_or d.status n.status;
}

unfoldable pub changed_note : ItemData → Option Note → Option Note
changed_note d none = none
changed_note d (some n) = some (changed d n)

unfoldable pub new_note : ItemCreateDto → ℕ → Note
new_note d u = record {
  owner_id = some u;
  title = some d.title;
  description = some d.description;
  status = some d.status;
}

-- The map after a command of the user `u`: `free` is whether the title may be taken, and `id` the
-- next new id.
unfoldable pub specified : Command → ℕ → Bool → ℕ → Notes → Notes
unfolding is_owned changed_note
specified (creation d) u free id n j = if id == j && free then some (new_note d u) else n j
specified (replacement i d) u free id n j =
    if i == j && is_owned u (n i) && free then changed_note (update_data d) (n i) else n j
specified (patch i d) u free id n j =
    if i == j && is_owned u (n i) && free then changed_note d (n i) else n j
specified (deletion i) u free id n j = if i == j && is_owned u (n i) then none else n j

module _ ⦃env : Env⦄ where
  unfoldable pub view : World → Notes
  unfolding note_of
  view w j = note_of (get_active_by_id j w)

  -- No other active item of the user has the title.
  unfoldable pub title_free : Option Text → ℕ → Option ℕ → World → Bool
  title_free title u x w = is_none (get_active_by_title_for_owner title u x w)

  unfoldable pub patch_free : Option (Option Text) → ℕ → ℕ → World → Bool
  unfolding title_free
  patch_free none u i w = true
  patch_free (some title) u i w = title_free title u (some i) w

  -- Whether a command may go ahead: a new id is one that no item has.
  unfoldable pub may : Command → ℕ → World → Bool
  unfolding title_free patch_free
  may (creation d) u w =
      title_free (some d.title) u none w
      && not (has (with_id (env.uuid4 w.drawn)) w.db.holiday_items)
  may (replacement i d) u w = title_free (some d.title) u (some i) w
  may (patch i d) u w = patch_free d.title u i w
  may (deletion i) u w = true

  unfoldable pub run : Command → ℕ → World → World
  run (creation d) u w = (create_item d u w).1
  run (replacement i d) u w = (put_item i d u w).1
  run (patch i d) u w = (patch_item i d u w).1
  run (deletion i) u w = (delete_item i u w).1
