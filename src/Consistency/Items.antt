-- ===== src/Consistency/Items.antt =====
-- The operations of App/modules/items/service.py write to no collection but their own.
use fastapi_newyear.Base.{ℕ, Text, Option, none, some, refl, arith, IsUnique}
use fastapi_newyear.Models.Items.{HolidayItem, ItemStatus}
use fastapi_newyear.Env.{Env}
use fastapi_newyear.World.{World, Db, Action, uuid4}
use fastapi_newyear.World.Keeps.{Keeps, bind, reads, stored, pure_keeps, lift_keeps}
use fastapi_newyear.Common.Cache
use fastapi_newyear.Users.Repository as Users
use fastapi_newyear.Auth.Tokens
use fastapi_newyear.Auth.Resets
use fastapi_newyear.Auth.States
use fastapi_newyear.Storage.Repository as Files
use fastapi_newyear.Items.Repository
use fastapi_newyear.Items.Repository.{ItemData, same_id}
use fastapi_newyear.Items.Schemas.{
  ItemCreateDto, ItemUpdateDto, PaginationDto, update_data, item_response,
}
use fastapi_newyear.Items.Service
use fastapi_newyear.Items.Titles.Operations.{
  create_item-IsWellFormed, put_item-IsWellFormed, patch_item-IsWellFormed,
  delete_item-IsWellFormed,
}
use fastapi_newyear.Items.Titles.{IsWellFormed}
use fastapi_newyear.Consistency.Keys.{IsConsistent}

-- The keys of the other collections.
abbrev Others : Db → Type 0
Others d =
    IsUnique Users.same_keys d.users
    × IsUnique Tokens.same_keys d.session_tokens
    × IsUnique Resets.same_keys d.password_reset_tokens
    × IsUnique States.same_keys d.oauth_states
    × IsUnique Files.same_keys d.files

module _ ⦃env : Env⦄ where
  create_keeps :
      (title description : Text) (status : ItemStatus) (u : ℕ)
      → Keeps Others (Repository.create title description status u)
  unfolding Repository.create uuid4
  create_keeps title description status u =
      stored
        (λ w.
          env.mongo.insert_one same_id
            (Repository.new_item (env.uuid4 w.drawn) w.now u title description status)
            w.db.holiday_items)
        (λ c d. record d { holiday_items = c }) (λ w e. ground arith) (λ w c e. ground arith)
        (λ w c h e. h)

  update_keeps : (i : HolidayItem) (values : ItemData) → Keeps Others (Repository.update i values)
  unfolding Repository.update
  update_keeps i values =
      stored
        (λ w.
          env.mongo.update_one same_id (Repository.with_id i.id) (Repository.updated w.now values)
            w.db.holiday_items)
        (λ c d. record d { holiday_items = c }) (λ w e. ground arith) (λ w c e. ground arith)
        (λ w c h e. h)

  soft_delete_keeps : (i : HolidayItem) → Keeps Others (Repository.soft_delete i)
  unfolding Repository.soft_delete
  soft_delete_keeps i =
      stored
        (λ w.
          env.mongo.update_one same_id (Repository.with_id i.id) (Repository.deleted w.now)
            w.db.holiday_items)
        (λ c d. record d { holiday_items = c }) (λ w e. ground arith) (λ w c e. ground arith)
        (λ w c h e. h)

  module _ {P : Db → Type 0} where
    check_title_keeps :
        (title : Option Text) (u : ℕ) (x : Option ℕ) → Keeps P (Service.check_title title u x)
    unfolding Service.check_title
    check_title_keeps title u x = reads (λ w. refl)

    list_cache_keeps : (u : ℕ) → Keeps P (Service.invalidate_user_items_cache u)
    unfolding Service.invalidate_user_items_cache Cache.del_by_pattern
    list_cache_keeps u = reads (λ w. refl)

    item_cache_keeps : (id : ℕ) → Keeps P (Service.invalidate_item_cache id)
    unfolding Service.invalidate_item_cache Cache.del_by_pattern
    item_cache_keeps id = reads (λ w. refl)

    owned_item_keeps : (id u : ℕ) → Keeps P (Service.owned_item id u)
    unfolding Service.owned_item
    owned_item_keeps id u = reads (λ w. ground arith)

    check_patch_keeps :
        (title : Option (Option Text)) (id u : ℕ) → Keeps P (Service.check_patch title id u)
    unfolding Service.check_patch
    check_patch_keeps none id u = pure_keeps _
    check_patch_keeps (some title) id u = check_title_keeps title u (some id)

    pub list_items_keeps : (p : PaginationDto) (u : ℕ) → Keeps P (Service.list_items p u)
    unfolding Service.list_items Service.list_from Repository.list_active_by_owner Cache.get
        Cache.set
    list_items_keeps p u = reads (λ w. ground arith)

    pub get_item_keeps : (id u : ℕ) → Keeps P (Service.get_item id u)
    unfolding Service.get_item Service.item_from Service.owned_item Cache.get Cache.set
    get_item_keeps id u = reads (λ w. ground arith)

  create_item-Others : (d : ItemCreateDto) (u : ℕ) → Keeps Others (Service.create_item d u)
  unfolding Service.create_item
  create_item-Others d u = bind (check_title_keeps (some d.title) u none) (λ _.
      bind (create_keeps d.title d.description d.status u)
        (λ i. bind (list_cache_keeps u) (λ _. lift_keeps (item_response i))))

  write_item-Others :
      (id : ℕ) (i : HolidayItem) (values : ItemData) (u : ℕ)
      → Keeps Others (Service.write_item id i values u)
  unfolding Service.write_item
  write_item-Others id i values u = bind (update_keeps i values) (λ updated.
      bind (list_cache_keeps u)
        (λ _. bind (item_cache_keeps id) (λ _. lift_keeps (Service.updated_response updated))))

  put_item-Others : (id : ℕ) (d : ItemUpdateDto) (u : ℕ) → Keeps Others (Service.put_item id d u)
  unfolding Service.put_item
  put_item-Others id d u = bind (owned_item_keeps id u) (λ i.
      bind (check_title_keeps (some d.title) u (some id))
        (λ _. write_item-Others id i (update_data d) u))

  patch_item-Others : (id : ℕ) (d : ItemData) (u : ℕ) → Keeps Others (Service.patch_item id d u)
  unfolding Service.patch_item
  patch_item-Others id d u =
      bind (owned_item_keeps id u)
        (λ i. bind (check_patch_keeps d.title id u) (λ _. write_item-Others id i d u))

  delete_item-Others : (id u : ℕ) → Keeps Others (Service.delete_item id u)
  unfolding Service.delete_item
  delete_item-Others id u = bind (owned_item_keeps id u) (λ i.
      bind (soft_delete_keeps i)
        (λ _. bind (list_cache_keeps u) (λ _. bind (item_cache_keeps id) (λ _. pure_keeps tt))))

  -- With what is known of the items.
  together :
      {A : Type 0} {m : Action A}
      → Keeps Others m
      → ((w : World) → IsConsistent w.db → IsWellFormed (m w).1.db.holiday_items)
      → Keeps IsConsistent m
  together others items = record {
    after = λ w h.
        let o =
          others.after w
            (h.users, h.session_tokens, h.password_reset_tokens, h.oauth_states, h.files) in
        record {
          users = o.0;
          session_tokens = o.1;
          password_reset_tokens = o.2;
          oauth_states = o.3;
          files = o.4;
          items = items w h;
        };
  }

  pub create_item_keeps : (d : ItemCreateDto) (u : ℕ) → Keeps IsConsistent (Service.create_item d u)
  create_item_keeps d u =
      together (create_item-Others d u) (λ w h. create_item-IsWellFormed d u w h.items)

  pub put_item_keeps :
      (id : ℕ) (d : ItemUpdateDto) (u : ℕ) → Keeps IsConsistent (Service.put_item id d u)
  put_item_keeps id d u =
      together (put_item-Others id d u) (λ w h. put_item-IsWellFormed id u d w h.items)

  pub patch_item_keeps :
      (id : ℕ) (d : ItemData) (u : ℕ) → Keeps IsConsistent (Service.patch_item id d u)
  patch_item_keeps id d u =
      together (patch_item-Others id d u) (λ w h. patch_item-IsWellFormed id u d w h.items)

  pub delete_item_keeps : (id u : ℕ) → Keeps IsConsistent (Service.delete_item id u)
  delete_item_keeps id u =
      together (delete_item-Others id u) (λ w h. delete_item-IsWellFormed id u w h.items)
