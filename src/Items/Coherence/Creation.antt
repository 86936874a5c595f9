-- ===== src/Items/Coherence/Creation.antt =====
-- A new item and the copies in the cache.
use fastapi_newyear.Base.{
  ℕ, ◌+◌, ◌≡◌, refl, sym, ◌∙◌, ap, ◌⊎◌, inl, inr, false, none, some, [], ◌∷◌, ◌++◌, arith,
  Option-cases, first, has, first-append,
}
use fastapi_newyear.Models.Items.{HolidayItem}
use fastapi_newyear.Env.{Env}
use fastapi_newyear.World.{World, uuid4}
use fastapi_newyear.Common.Cache
use fastapi_newyear.Common.Cache.Client.{peek}
use fastapi_newyear.Items.Repository
use fastapi_newyear.Items.Repository.{
  get_active_by_id, active_with_id, active_with_title, with_id, same_id, new_item,
  list_active_by_owner,
}
use fastapi_newyear.Items.Schemas.{ItemCreateDto}
use fastapi_newyear.Items.Service.{
  create_item, check_title, item_cache_key, invalidate_user_items_cache,
}
use fastapi_newyear.Items.Titles.Operations.{create_item_cases}
use fastapi_newyear.Items.Coherence.{IsCoherent, IsCoherent-again}
use fastapi_newyear.Items.Coherence.Commands.{peek-invalidate_user_items_cache}

module _ ⦃env : Env⦄ where
  create_item_frame : (d : ItemCreateDto) (u : ℕ) (w : World) → (create_item d u w).1.now ≡ w.now
  unfolding create_item check_title Repository.create uuid4 invalidate_user_items_cache
      Cache.del_by_pattern
  create_item_frame d u w = ground arith

  server-create_item :
      (d : ItemCreateDto) (u : ℕ) (w : World)
      → ((create_item d u w).1.server ≡ w.server)
        ⊎ ((v : World) × ((create_item d u w).1.server ≡ (invalidate_user_items_cache u v).1.server)
            × (v.server ≡ w.server))
  unfolding create_item check_title Repository.create uuid4 Repository.get_active_by_title_for_owner
  server-create_item d u w =
      let i = new_item (env.uuid4 w.drawn) w.now u d.title d.description d.status in
      elim (Option-cases
        (env.mongo.find_one (active_with_title (some d.title) u none) w.db.holiday_items)) [
          | inr (j, taken) ↦ inl (ground arith)
          | inl free ↦ elim (Option-cases (env.mongo.insert_one same_id i w.db.holiday_items)) [
            | inl refused ↦ inl (ground arith)
            | inr (c, stored) ↦
                inr (Repository.set_items c (record w { drawn = w.drawn + 1 }), ground arith, refl)
          ]
        ]

  peek-create_item :
      (d : ItemCreateDto) (u j x t : ℕ) (w : World)
      → peek t (item_cache_key x j) (create_item d u w).1.server
        ≡ peek t (item_cache_key x j) w.server
  peek-create_item d u j x t w = elim (server-create_item d u w) [
    | inl same ↦ ap (peek t (item_cache_key x j)) same
    | inr (v, e, same) ↦
        ap (peek t (item_cache_key x j)) e
        ∙ peek-invalidate_user_items_cache u x j t v
        ∙ ap (peek t (item_cache_key x j)) same
  ]

  active_first :
      (j : ℕ) (w : World) → get_active_by_id j w ≡ first (active_with_id j) w.db.holiday_items
  unfolding get_active_by_id
  active_first j w = env.mongo.find_one_lem (active_with_id j) w.db.holiday_items

  -- A new item is found under its own id alone, where no item was found before.
  active_added :
      (j : ℕ) (i : HolidayItem) (v w : World)
      → v.db.holiday_items ≡ w.db.holiday_items ++ i ∷ []
      → has (same_id i) w.db.holiday_items ≡ false
      → (get_active_by_id j v ≡ get_active_by_id j w) ⊎ (get_active_by_id j w ≡ none)
  unfolding first
  active_added j i v w added fresh =
      let c = w.db.holiday_items in
      let after =
        active_first j v
        ∙ ap (first (active_with_id j)) added
        ∙ first-append (active_with_id j) c (i ∷ []) in
      elim (Option-cases (first (active_with_id j) c)) [
        | inl missing ↦ inr (active_first j w ∙ missing)
        | inr (a, found) ↦ inl (ground (arith, after, active_first j w))
      ]

  pub IsCoherent-create_item :
      (d : ItemCreateDto) (u : ℕ) (w : World) → IsCoherent w → IsCoherent (create_item d u w).1
  IsCoherent-create_item d u w h =
      IsCoherent-again w (create_item d u w).1 h (omega (arith, create_item_frame d u w))
        (λ j x t after. inr (
          peek-create_item d u j x t w,
          elim (create_item_cases d u w) [
            | inl same ↦ inl (
                active_first j (create_item d u w).1
                ∙ ap (first (active_with_id j)) same
                ∙ sym (active_first j w))
            | inr (added, free, fresh) ↦ active_added j _ (create_item d u w).1 w added fresh
          ],
        ))
