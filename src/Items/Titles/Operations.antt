-- ===== src/Items/Titles/Operations.antt =====
-- The operations of `ItemService` keep the titles of a user's active items apart.
use fastapi_newyear.Base.{
  ℕ, ◌≡◌, refl, sym, ◌∙◌, ap, true, false, none, some, Option, [], ◌∷◌, ◌++◌, Text, arith, first,
  has, update_first, Option-cases, Bool-cases, inl, inr, ◌⊎◌,
}
use fastapi_newyear.Models.Items.{HolidayItem, ItemResponseDto}
use fastapi_newyear.Env.{Env}
use fastapi_newyear.World.{World, Db, uuid4}
use fastapi_newyear.Errors.{Result}
use fastapi_newyear.Common.Cache.{del_by_pattern}
use fastapi_newyear.Items.Repository.{
  ItemData, is_owner, active_with_id, active_with_title, with_id, same_id, new_item, updated,
  deleted, get_active_by_id, get_active_by_title_for_owner, create,
}
use fastapi_newyear.Items.Schemas.{ItemCreateDto, ItemUpdateDto, update_data}
use fastapi_newyear.Items.Service.{
  owned_item, check_title, write_item, create_item, put_item, patch_item, delete_item,
  invalidate_user_items_cache,
}
use fastapi_newyear.Items.Freshness.{
  after_delete, invalidate_item_cache_frame, frame_user_items_cache,
}
use fastapi_newyear.Items.Freshness.Writes.{write_item_lem}
use fastapi_newyear.Items.Titles.{
  IsWellFormed, IsWellFormed-append, IsWellFormed-update_title, IsWellFormed-update_rest,
  IsWellFormed-delete, found_item,
}

module _ ⦃env : Env⦄ where
  -- `create_item` changes no items, or adds one whose id and title are free.
  pub create_item_cases :
      (payload : ItemCreateDto) (u : ℕ) (w : World)
      → let i =
          new_item (env.uuid4 w.drawn) w.now u payload.title payload.description payload.status in
        ((create_item payload u w).1.db.holiday_items ≡ w.db.holiday_items)
        ⊎ (((create_item payload u w).1.db.holiday_items ≡ w.db.holiday_items ++ i ∷ [])
            × (first (active_with_title (some payload.title) u none) w.db.holiday_items ≡ none)
            × (has (same_id i) w.db.holiday_items ≡ false))
  unfolding create_item check_title create uuid4 get_active_by_title_for_owner
      invalidate_user_items_cache del_by_pattern
  create_item_cases payload u w =
      let i =
        new_item (env.uuid4 w.drawn) w.now u payload.title payload.description payload.status in
      let found : env.mongo.find_one (active_with_title (some payload.title) u none)
            w.db.holiday_items
          ≡ first (active_with_title (some payload.title) u none) w.db.holiday_items =
        env.mongo.find_one_lem (active_with_title (some payload.title) u none) w.db.holiday_items in
      let stored = env.mongo.insert_one_lem same_id i w.db.holiday_items in
      elim (Option-cases
        (first (active_with_title (some payload.title) u none) w.db.holiday_items)) [
          | inr (d, e) ↦ inl (ground arith)
          | inl e ↦ elim (Bool-cases (has (same_id i) w.db.holiday_items)) [
            | inl taken ↦ inl (ground arith)
            | inr free ↦ inr (ground arith, e, free)
          ]
        ]

  -- Creating an item, whether it succeeds or not, keeps the ids of all items and the titles of each user's active items
  -- apart.
  pub create_item-IsWellFormed :
      (payload : ItemCreateDto) (u : ℕ) (w : World)
      → IsWellFormed w.db.holiday_items
      → IsWellFormed (create_item payload u w).1.db.holiday_items
  create_item-IsWellFormed payload u w h = elim (create_item_cases payload u w) [
    | inl same ↦ rw same h
    | inr (added, free, fresh) ↦ rw added (
        IsWellFormed-append u (env.uuid4 w.drawn) w.now payload.title payload.description
          payload.status w.db.holiday_items h free fresh)
  ]

  pub found_first :
      (item_id : ℕ) (i : HolidayItem) (w : World)
      → get_active_by_id item_id w ≡ some i
      → first (active_with_id item_id) w.db.holiday_items ≡ some i
  unfolding get_active_by_id
  found_first item_id i w found =
      sym (env.mongo.find_one_lem (active_with_id item_id) w.db.holiday_items) ∙ found

  free_first :
      (title : Option Text) (u : ℕ) (x : Option ℕ) (w : World)
      → get_active_by_title_for_owner title u x w ≡ none
      → first (active_with_title title u x) w.db.holiday_items ≡ none
  unfolding get_active_by_title_for_owner
  free_first title u x w free =
      sym (env.mongo.find_one_lem (active_with_title title u x) w.db.holiday_items) ∙ free

  -- The items after a write.
  pub items-write_item :
      (item_id u : ℕ) (i : HolidayItem) (values : ItemData) (w : World)
      → IsWellFormed w.db.holiday_items
      → get_active_by_id item_id w ≡ some i
      → (write_item item_id i values u w).1.db.holiday_items
        ≡ update_first (with_id i.id) (updated w.now values) w.db.holiday_items
  items-write_item item_id u i values w h found =
      ap (λ (q : Result ItemResponseDto × World). q.1.db.holiday_items)
        (write_item_lem item_id i values w h.0 found u)
      ∙ ap (λ (d : Db). d.holiday_items)
          ((invalidate_item_cache_frame item_id _).0 ∙ (frame_user_items_cache u _).0)

  write_title-IsWellFormed :
      (item_id u : ℕ) (i : HolidayItem) (title : Option Text) (values : ItemData) (w : World)
      → IsWellFormed w.db.holiday_items
      → get_active_by_id item_id w ≡ some i
      → is_owner u i.owner_id ≡ true
      → values.title ≡ some title
      → get_active_by_title_for_owner title u (some item_id) w ≡ none
      → IsWellFormed (write_item item_id i values u w).1.db.holiday_items
  write_title-IsWellFormed item_id u i title values w h found own set free =
      let (named, at) =
        found_item item_id w.db.holiday_items i h.0 (found_first item_id i w found) in
      rw (items-write_item item_id u i values w h found) (
        IsWellFormed-update_title u item_id w.now title values w.db.holiday_items i h own set at
          named (free_first title u (some item_id) w free))

  write_rest-IsWellFormed :
      (item_id u : ℕ) (i : HolidayItem) (values : ItemData) (w : World)
      → IsWellFormed w.db.holiday_items
      → get_active_by_id item_id w ≡ some i
      → values.title ≡ none
      → IsWellFormed (write_item item_id i values u w).1.db.holiday_items
  write_rest-IsWellFormed item_id u i values w h found unset =
      rw (items-write_item item_id u i values w h found)
        (IsWellFormed-update_rest i.id w.now values w.db.holiday_items h unset)

  -- A replacement changes nothing, or writes to the user's item a title that is free.
  pub put_item_branches :
      (item_id u : ℕ) (payload : ItemUpdateDto) (w : World)
      → ((put_item item_id payload u w).1 ≡ w)
        ⊎ ((i : HolidayItem) × (get_active_by_id item_id w ≡ some i)
            × (is_owner u i.owner_id ≡ true)
            × (get_active_by_title_for_owner (some payload.title) u (some item_id) w ≡ none)
            × ((put_item item_id payload u w).1
                ≡ (write_item item_id i (update_data payload) u w).1))
  unfolding put_item owned_item check_title
  put_item_branches item_id u payload w = elim (Option-cases (get_active_by_id item_id w)) [
    | inl missing ↦ inl (ground arith)
    | inr (i, found) ↦ elim (Bool-cases (is_owner u i.owner_id)) [
      | inr other ↦ inl (ground arith)
      | inl own ↦
          elim (Option-cases
            (get_active_by_title_for_owner (some payload.title) u (some item_id) w)) [
              | inl free ↦ inr (i, found, own, free, ground arith)
              | inr (j, taken) ↦ inl (ground arith)
            ]
    ]
  ]

  put_title : (payload : ItemUpdateDto) → (update_data payload).title ≡ some (some payload.title)
  unfolding update_data
  put_title payload = refl

  -- Replacing an item, whether it succeeds or not, keeps the ids of all items and the titles of each
  -- user's active items apart.
  pub put_item-IsWellFormed :
      (item_id u : ℕ) (payload : ItemUpdateDto) (w : World)
      → IsWellFormed w.db.holiday_items
      → IsWellFormed (put_item item_id payload u w).1.db.holiday_items
  put_item-IsWellFormed item_id u payload w h = elim (put_item_branches item_id u payload w) [
    | inl same ↦ rw same h
    | inr (i, found, own, free, e) ↦ rw e (
        write_title-IsWellFormed item_id u i (some payload.title) (update_data payload) w h found
          own (put_title payload) free)
  ]

  -- A patch changes nothing, or writes to the user's item, and if it sets the title then to one that is free.
  pub patch_item_branches :
      (item_id u : ℕ) (patch : ItemData) (w : World)
      → ((patch_item item_id patch u w).1 ≡ w)
        ⊎ ((i : HolidayItem) × (get_active_by_id item_id w ≡ some i)
            × (is_owner u i.owner_id ≡ true)
            × ((title : Option Text)
                → patch.title ≡ some title
                → get_active_by_title_for_owner title u (some item_id) w ≡ none)
            × ((patch_item item_id patch u w).1 ≡ (write_item item_id i patch u w).1))
  unfolding patch_item owned_item check_title
  patch_item_branches item_id u patch w = elim (Option-cases (get_active_by_id item_id w)) [
    | inl missing ↦ inl (ground arith)
    | inr (i, found) ↦ elim (Bool-cases (is_owner u i.owner_id)) [
      | inr other ↦ inl (ground arith)
      | inl own ↦ elim (Option-cases patch.title) [
        | inl unset ↦ inr (i, found, own, λ title set. ground arith, ground arith)
        | inr (title, set) ↦
            elim (Option-cases (get_active_by_title_for_owner title u (some item_id) w)) [
              | inl free ↦ inr (i, found, own, λ other e. ground arith, ground arith)
              | inr (j, taken) ↦ inl (ground arith)
            ]
      ]
    ]
  ]

  -- Patching an item, whatever fields the patch has and whether it succeeds or not, keeps them apart
  -- too: the ids of all items, and the titles of each user's active items.
  pub patch_item-IsWellFormed :
      (item_id u : ℕ) (patch : ItemData) (w : World)
      → IsWellFormed w.db.holiday_items
      → IsWellFormed (patch_item item_id patch u w).1.db.holiday_items
  patch_item-IsWellFormed item_id u patch w h = elim (patch_item_branches item_id u patch w) [
    | inl same ↦ rw same h
    | inr (i, found, own, free, e) ↦ elim (Option-cases patch.title) [
      | inl unset ↦ rw e (write_rest-IsWellFormed item_id u i patch w h found unset)
      | inr (title, set) ↦
          rw e (write_title-IsWellFormed item_id u i title patch w h found own set (free title set))
    ]
  ]

  pub delete_item_branches :
      (item_id u : ℕ) (w : World)
      → ((delete_item item_id u w).1 ≡ w)
        ⊎ ((i : HolidayItem) × (get_active_by_id item_id w ≡ some i)
            × (is_owner u i.owner_id ≡ true))
  unfolding delete_item owned_item
  delete_item_branches item_id u w = elim (Option-cases (get_active_by_id item_id w)) [
    | inl missing ↦ inl (ground arith)
    | inr (i, found) ↦ elim (Bool-cases (is_owner u i.owner_id)) [
      | inr other ↦ inl (ground arith)
      | inl own ↦ inr (i, found, own)
    ]
  ]

  -- Deleting an item, whether it succeeds or not, keeps the ids of all items and the titles of each
  -- user's active items apart.
  pub delete_item-IsWellFormed :
      (item_id u : ℕ) (w : World)
      → IsWellFormed w.db.holiday_items
      → IsWellFormed (delete_item item_id u w).1.db.holiday_items
  delete_item-IsWellFormed item_id u w h = elim (delete_item_branches item_id u w) [
    | inl same ↦ rw same h
    | inr (i, found, own) ↦
        let (named, at) =
          found_item item_id w.db.holiday_items i h.0 (found_first item_id i w found) in
        let e = after_delete item_id u i w found own in
        let items : (delete_item item_id u w).1.db.holiday_items
            ≡ update_first (with_id i.id) (deleted w.now) w.db.holiday_items =
          ap (λ (v : World). v.db.holiday_items) e
          ∙ ap (λ (d : Db). d.holiday_items)
              ((invalidate_item_cache_frame item_id _).0 ∙ (frame_user_items_cache u _).0) in
        rw items (IsWellFormed-delete w.now w.db.holiday_items i h named)
  ]
