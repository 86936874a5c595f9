-- ===== src/Examples/Items.antt =====
-- Witnesses of the theorems on items.
use fastapi_newyear.Base.{
  ℕ, ◌*◌, ◌≤◌, ◌≡◌, refl, arith, codes, ◌∷◌, [], some, none, first, has, update_first, text_eq,
  IsUnique,
}
use fastapi_newyear.Errors.{ok, err, not_found, validation_error}
use fastapi_newyear.World.{World, Db}
use fastapi_newyear.Redis.{word, num, free, item}
use fastapi_newyear.Models.Items.{HolidayItem, ItemResponseDto, planned, done}
use fastapi_newyear.Items.Repository
use fastapi_newyear.Items.Repository.{
  ItemData, same_id, get_active_by_id, get_active_by_title_for_owner, updated,
}
use fastapi_newyear.Items.Schemas.{ItemCreateDto, ItemUpdateDto, total_pages}
use fastapi_newyear.Items.Schemas.Pages.{total_pages_lem}
use fastapi_newyear.Common.Cache
use fastapi_newyear.Items.Schemas
use fastapi_newyear.Items.Service
use fastapi_newyear.Items.Service.{get_item, create_item, put_item, patch_item, delete_item}
use fastapi_newyear.Items.Repository.{active_of_owner}
use fastapi_newyear.Items.Freshness.{get_item-delete_item}
use fastapi_newyear.Items.Freshness.Writes.{get_item-put_item, get_item-patch_item}
use fastapi_newyear.Items.Nulls.{patch_item_null_title}
use fastapi_newyear.Items.Titles.{IsWellFormed, clashes}
use fastapi_newyear.Items.Titles.Operations.{patch_item-IsWellFormed}
use fastapi_newyear.Examples.Environment.{env, empty_db, empty_world}

abbrev tree : HolidayItem
tree = record {
  id = 301;
  owner_id = some 103;
  title = some (codes "tree");
  description = some (codes "a green one");
  status = some planned;
  created_at = 900000000;
  updated_at = 900000000;
  deleted_at = none;
}

abbrev other_tree : HolidayItem
other_tree = record tree { id = 302; owner_id = some 203 }

abbrev tree_response : ItemResponseDto
tree_response = record {
  id = 301;
  title = codes "tree";
  description = codes "a green one";
  status = planned;
  created_at = 900000000;
  updated_at = 900000000;
}

-- Two users with an item each; the first one's is in the cache.
abbrev listed_db : Db
listed_db = record empty_db { holiday_items = tree ∷ other_tree ∷ [] }

abbrev pub listed : World
listed = record empty_world {
  db = listed_db;
  server = record {
    dump =
        record {
          key =
              free (codes "wp")
              ∷ word "items"
              ∷ word "entity"
              ∷ word "user"
              ∷ num 103
              ∷ num 301
              ∷ [];
          value = item tree_response;
          deadline = some 1100000000;
        }
        ∷ [];
    calls = 1;
  };
}

abbrev garland : ItemUpdateDto
garland = record { title = codes "garland"; description = codes "a red one"; status = done }

abbrev garland_response : ItemResponseDto
garland_response = record tree_response {
  title = codes "garland";
  description = codes "a red one";
  status = done;
  updated_at = 1000000000;
}

abbrev new_garland : ItemCreateDto
new_garland = record { title = codes "garland"; description = codes "a red one"; status = done }

abbrev status_patch : ItemData
status_patch = record { title = none; description = none; status = some (some done) }

abbrev patched_response : ItemResponseDto
patched_response = record tree_response { status = done; updated_at = 1000000000 }

abbrev null_patch : ItemData
null_patch = record {
  title = some none;
  description = some (some (codes "a red one"));
  status = none;
}

pages_example : (25 ≤ total_pages 25 10 * 10) × ((n : ℕ) → 25 ≤ n * 10 → total_pages 25 10 ≤ n)
pages_example = total_pages_lem 25 10 (ground arith)

other_found : get_active_by_id 302 listed ≡ some other_tree
unfolding get_active_by_id first Repository.active_with_id
other_found = refl

tree_found : get_active_by_id 301 listed ≡ some tree
unfolding get_active_by_id first Repository.active_with_id
tree_found = refl

nothing_found : get_active_by_id 999 listed ≡ none
unfolding get_active_by_id first Repository.active_with_id
nothing_found = refl

no_null_title : get_active_by_title_for_owner none 103 (some 301) listed ≡ none
unfolding get_active_by_title_for_owner first Repository.active_with_title
    Repository.active_of_owner
no_null_title = refl

listed-IsUnique : IsUnique same_id listed.db.holiday_items
unfolding has same_id
listed-IsUnique = (refl, (refl, tt))

pub listed-IsWellFormed : IsWellFormed listed.db.holiday_items
unfolding has same_id clashes text_eq
listed-IsWellFormed = ((refl, (refl, tt)), (refl, (refl, tt)))

deletes : (delete_item 301 103 listed).0 ≡ ok tt
unfolding delete_item Service.owned_item get_active_by_id first Repository.active_with_id
    Repository.soft_delete Service.invalidate_user_items_cache Service.invalidate_item_cache
    Cache.del_by_pattern fastapi_newyear.Examples.Lists.update_unique Repository.with_id has same_id
    Repository.deleted
deletes = refl

puts : (put_item 301 garland 103 listed).0 ≡ ok garland_response
unfolding put_item Service.check_title get_active_by_title_for_owner Repository.active_with_title
    Repository.active_of_owner Schemas.update_data Service.owned_item get_active_by_id first
    Repository.active_with_id Service.write_item Repository.update
    Service.invalidate_user_items_cache Service.invalidate_item_cache Cache.del_by_pattern
    Service.updated_response update_first Repository.with_id updated Schemas.item_response text_eq
    fastapi_newyear.Examples.Lists.update_unique has same_id
puts = refl

patches : (patch_item 301 status_patch 103 listed).0 ≡ ok patched_response
unfolding patch_item Service.owned_item get_active_by_id first Repository.active_with_id
    Service.write_item Repository.update Service.invalidate_user_items_cache
    Service.invalidate_item_cache Cache.del_by_pattern Service.updated_response update_first
    Repository.with_id updated Schemas.item_response fastapi_newyear.Examples.Lists.update_unique
    has same_id
patches = refl

get_deleted_example :
    (get_item 301 103 (record (delete_item 301 103 listed).1 { now = 1000000005 })).0
    ≡ err (not_found "Item not found")
get_deleted_example =
    get_item-delete_item (λ n. refl) 301 103 103 1000000005 listed listed-IsUnique (ground arith)
      deletes

get_put_example :
    (get_item 301 103 (record (put_item 301 garland 103 listed).1 { now = 1000000005 })).0
    ≡ ok garland_response
get_put_example =
    get_item-put_item (λ n. refl) 301 103 1000000005 garland listed garland_response (ground arith)
      listed-IsUnique (ground arith) puts

get_patch_example :
    (get_item 301 103 (record (patch_item 301 status_patch 103 listed).1 { now = 1000000005 })).0
    ≡ ok patched_response
get_patch_example =
    get_item-patch_item (λ n. refl) 301 103 1000000005 status_patch listed patched_response
      (ground arith) listed-IsUnique (ground arith) patches

null_title_example :
    ((patch_item 301 null_patch 103 listed).0 ≡ err validation_error)
    × (get_active_by_id 301 (patch_item 301 null_patch 103 listed).1
        ≡ some (updated 1000000000 null_patch tree))
    × ((updated 1000000000 null_patch tree).title ≡ none)
null_title_example =
    patch_item_null_title 301 103 null_patch tree listed listed-IsUnique tree_found refl refl
      no_null_title

patch-IsWellFormed_example :
    IsWellFormed (patch_item 301 status_patch 103 listed).1.db.holiday_items
patch-IsWellFormed_example = patch_item-IsWellFormed 301 103 status_patch listed listed-IsWellFormed
