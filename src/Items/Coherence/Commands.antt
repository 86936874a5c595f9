-- ===== src/Items/Coherence/Commands.antt =====
-- The changes of the items leave a coherent cache coherent.
use fastapi_newyear.Base.{
  ℕ, ◌≤◌, ◌≡◌, refl, sym, ◌∙◌, ap, inl, inr, false, some, [], ◌∷◌, arith, ◌==◌, Bool-cases,
  text_eq_refl, first, update_first,
}
use mathlib.Core.Path.{subst}
use fastapi_newyear.Errors.{Result}
use fastapi_newyear.Models.Items.{HolidayItem, ItemResponseDto}
use fastapi_newyear.Env.{Env}
use fastapi_newyear.Redis.{word, num, glob_match}
use fastapi_newyear.World.{World}
use fastapi_newyear.Common.Cache
use fastapi_newyear.Common.Cache.{then_star, then_star_part}
use fastapi_newyear.Common.Cache.Client.{peek}
use fastapi_newyear.Common.Cache.Patterns.{peek-del_by_pattern_other}
use fastapi_newyear.Items.Repository
use fastapi_newyear.Items.Repository.{
  ItemData, is_owner, get_active_by_id, active_with_id, with_id, updated, deleted,
}
use fastapi_newyear.Items.Service.{
  write_item, put_item, patch_item, delete_item, item_cache_key, invalidate_user_items_cache,
  invalidate_item_cache,
}
use fastapi_newyear.Items.Freshness.{peek-invalidate_item_cache, after_delete}
use fastapi_newyear.Items.Freshness.Writes.{write_item_lem}
use fastapi_newyear.Items.Schemas.{ItemUpdateDto, update_data}
use fastapi_newyear.Items.Titles.{IsWellFormed, found_item}
use fastapi_newyear.Items.Titles.Operations.{
  put_item_branches, patch_item_branches, delete_item_branches, found_first,
}
use fastapi_newyear.Items.Refinement.Writes.{found-update_first, id-updated, id-deleted}
use fastapi_newyear.Items.Coherence.{IsCoherent, IsCoherent-again}

module _ ⦃env : Env⦄ where
  not_listed :
      (u x j : ℕ)
      → glob_match
          (then_star (Cache.key (word "items" ∷ word "list" ∷ word "user" ∷ num u ∷ [])))
          (item_cache_key x j)
        ≡ false
  unfolding item_cache_key Cache.key
  not_listed u x j = ground (arith, text_eq_refl env.settings.redis_key_prefix)

  not_item :
      (id x j : ℕ)
      → (id == j) ≡ false
      → glob_match
          (then_star_part (Cache.key (word "items" ∷ word "entity" ∷ word "user" ∷ [])) (num id))
          (item_cache_key x j)
        ≡ false
  unfolding item_cache_key Cache.key
  not_item id x j other = ground (arith, text_eq_refl env.settings.redis_key_prefix)

  pub peek-invalidate_user_items_cache :
      (u x j t : ℕ) (w : World)
      → peek t (item_cache_key x j) (invalidate_user_items_cache u w).1.server
        ≡ peek t (item_cache_key x j) w.server
  unfolding invalidate_user_items_cache
  peek-invalidate_user_items_cache u x j t w =
      peek-del_by_pattern_other t _ (item_cache_key x j) w (not_listed u x j)

  peek-invalidate_other :
      (id x j t : ℕ) (w : World)
      → (id == j) ≡ false
      → peek t (item_cache_key x j) (invalidate_item_cache id w).1.server
        ≡ peek t (item_cache_key x j) w.server
  unfolding invalidate_item_cache
  peek-invalidate_other id x j t w other =
      peek-del_by_pattern_other t _ (item_cache_key x j) w (not_item id x j other)

  -- The state after an update of the items, and the two invalidations.
  abbrev after_write : ℕ → ℕ → ℕ → (HolidayItem → HolidayItem) → World → World
  after_write id u at f w =
      (invalidate_item_cache id
        (invalidate_user_items_cache u
          (Repository.set_items (update_first (with_id at) f w.db.holiday_items) w)).1).1

  after_write_frame :
      (id u at : ℕ) (f : HolidayItem → HolidayItem) (w : World)
      → ((after_write id u at f w).db.holiday_items
          ≡ update_first (with_id at) f w.db.holiday_items)
        × ((after_write id u at f w).now ≡ w.now)
  unfolding invalidate_item_cache invalidate_user_items_cache Cache.del_by_pattern
  after_write_frame id u at f w = (refl, refl)

  active_other :
      (id u j : ℕ) (f : HolidayItem → HolidayItem) (w : World)
      → ((a : HolidayItem) → (f a).id ≡ a.id)
      → (id == j) ≡ false
      → get_active_by_id j (after_write id u id f w) ≡ get_active_by_id j w
  unfolding get_active_by_id
  active_other id u j f w keeps other =
      let v = after_write id u id f w in
      env.mongo.find_one_lem (active_with_id j) v.db.holiday_items
      ∙ ap (first (active_with_id j)) (after_write_frame id u id f w).0
      ∙ found-update_first id j f w.db.holiday_items keeps other
      ∙ sym (env.mongo.find_one_lem (active_with_id j) w.db.holiday_items)

  user_frame : (u : ℕ) (w : World) → (invalidate_user_items_cache u w).1.now ≡ w.now
  unfolding invalidate_user_items_cache Cache.del_by_pattern
  user_frame u w = refl

  module _ (up : (n : ℕ) → env.redis_fails n ≡ false) where
    IsCoherent-write :
        (id u : ℕ) (f : HolidayItem → HolidayItem) (w : World)
        → ((a : HolidayItem) → (f a).id ≡ a.id)
        → IsCoherent w
        → IsCoherent (after_write id u id f w)
    IsCoherent-write id u f w keeps h =
        let c' = update_first (with_id id) f w.db.holiday_items in
        let w0 = Repository.set_items c' w in
        let w1 = (invalidate_user_items_cache u w0).1 in
        let same_now = (after_write_frame id u id f w).1 in
        IsCoherent-again w (after_write id u id f w) h (omega (arith, same_now)) (λ j x t after.
          elim (Bool-cases (id == j)) [
            | inl here ↦
                let e : id ≡ j = ground arith in
                let later : w1.now ≤ t = omega (arith, same_now, user_frame u w0) in
                inl (rw (← e) (peek-invalidate_item_cache up x id t w1 later))
            | inr other ↦ inr (
              peek-invalidate_other id x j t w1 other ∙ peek-invalidate_user_items_cache u x j t w0,
              inl (active_other id u j f w keeps other),
            )
          ])

    IsCoherent-write_item :
        (id u : ℕ) (i : HolidayItem) (d : ItemData) (w : World)
        → IsWellFormed w.db.holiday_items
        → get_active_by_id id w ≡ some i
        → IsCoherent w
        → IsCoherent (write_item id i d u w).1
    IsCoherent-write_item id u i d w wf found h =
        let at = (found_item id w.db.holiday_items i wf.0 (found_first id i w found)).1 in
        let wrote : (write_item id i d u w).1 ≡ after_write id u id (updated w.now d) w =
          ap (λ (q : Result ItemResponseDto × World). q.1) (write_item_lem id i d w wf.0 found u)
          ∙ ap (λ (n : ℕ). after_write id u n (updated w.now d) w) at in
        subst IsCoherent (sym wrote)
          (IsCoherent-write id u (updated w.now d) w (id-updated w.now d) h)

    pub IsCoherent-put_item :
        (id u : ℕ) (d : ItemUpdateDto) (w : World)
        → IsWellFormed w.db.holiday_items
        → IsCoherent w
        → IsCoherent (put_item id d u w).1
    IsCoherent-put_item id u d w wf h = elim (put_item_branches id u d w) [
      | inl same ↦ subst IsCoherent (sym same) h
      | inr (i, found, own, free, e) ↦
          subst IsCoherent (sym e) (IsCoherent-write_item id u i (update_data d) w wf found h)
    ]

    pub IsCoherent-patch_item :
        (id u : ℕ) (d : ItemData) (w : World)
        → IsWellFormed w.db.holiday_items
        → IsCoherent w
        → IsCoherent (patch_item id d u w).1
    IsCoherent-patch_item id u d w wf h = elim (patch_item_branches id u d w) [
      | inl same ↦ subst IsCoherent (sym same) h
      | inr (i, found, own, free, e) ↦
          subst IsCoherent (sym e) (IsCoherent-write_item id u i d w wf found h)
    ]

    pub IsCoherent-delete_item :
        (id u : ℕ) (w : World)
        → IsWellFormed w.db.holiday_items
        → IsCoherent w
        → IsCoherent (delete_item id u w).1
    IsCoherent-delete_item id u w wf h = elim (delete_item_branches id u w) [
      | inl same ↦ subst IsCoherent (sym same) h
      | inr (i, found, own) ↦
          let at = (found_item id w.db.holiday_items i wf.0 (found_first id i w found)).1 in
          let gone : (delete_item id u w).1 ≡ after_write id u id (deleted w.now) w =
            after_delete id u i w found own
            ∙ ap (λ (n : ℕ). after_write id u n (deleted w.now) w) at in
          subst IsCoherent (sym gone) (IsCoherent-write id u (deleted w.now) w (id-deleted w.now) h)
    ]
