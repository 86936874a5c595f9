-- ===== src/Items/Refinement/Writes.antt =====
-- The map of the notes after an update, and after a deletion.
use fastapi_newyear.Base.{
  ℕ, ◌≡◌, refl, ◌∙◌, ap, true, false, none, some, List, [], ◌∷◌, arith, first, update_first,
  first-update_first_in, first-update_first_out, ◌==◌, if◌then◌else◌, Bool-cases, inl, inr,
}
use fastapi_newyear.Models.Items.{HolidayItem}
use fastapi_newyear.Env.{Env}
use fastapi_newyear.World.{World, Db}
use fastapi_newyear.Items.Repository.{
  ItemData, is_owner, active_with_id, with_id, same_id, updated, deleted, get_active_by_id,
}
use fastapi_newyear.Items.Repository.Keys.{same_id-with_id}
use fastapi_newyear.Items.Service.{write_item, delete_item}
use fastapi_newyear.Items.Freshness.{
  after_delete, invalidate_item_cache_frame, frame_user_items_cache,
}
use fastapi_newyear.Items.Titles.{IsWellFormed, found_item}
use fastapi_newyear.Items.Titles.Operations.{items-write_item, found_first}
use fastapi_newyear.Items.Refinement.{note, note_of, changed, view}

module _ ⦃env : Env⦄ where
  -- An update of the item that has the id `i`, as it is found under `j`.
  pub found-update_first :
      (i j : ℕ) (f : HolidayItem → HolidayItem) (c : List HolidayItem)
      → ((a : HolidayItem) → (f a).id ≡ a.id)
      → (i == j) ≡ false
      → first (active_with_id j) (update_first (with_id i) f c) ≡ first (active_with_id j) c
  unfolding first update_first active_with_id with_id
  found-update_first i j f [] keeps other = refl
  found-update_first i j f (x ∷ c) keeps other =
      ground (arith, keeps x, found-update_first i j f c keeps other)

  pub view_eq :
      (v : World) (c : List HolidayItem) (j : ℕ)
      → v.db.holiday_items ≡ c
      → view v j ≡ note_of (first (active_with_id j) c)
  unfolding view get_active_by_id
  view_eq v c j e =
      ap note_of (env.mongo.find_one_lem (active_with_id j) v.db.holiday_items)
      ∙ ap (λ (l : List HolidayItem). note_of (first (active_with_id j) l)) e

  pub note-updated :
      (now : ℕ) (d : ItemData) (i : HolidayItem) → note (updated now d i) ≡ changed d (note i)
  unfolding note updated changed
  note-updated now d i = refl

  active-updated :
      (j now : ℕ) (d : ItemData) (a : HolidayItem)
      → active_with_id j (updated now d a) ≡ active_with_id j a
  unfolding active_with_id updated
  active-updated j now d a = refl

  active-deleted : (j now : ℕ) (a : HolidayItem) → active_with_id j (deleted now a) ≡ false
  unfolding active_with_id deleted
  active-deleted j now a = ground arith

  pub id-updated : (now : ℕ) (d : ItemData) (a : HolidayItem) → (updated now d a).id ≡ a.id
  unfolding updated
  id-updated now d a = refl

  pub id-deleted : (now : ℕ) (a : HolidayItem) → (deleted now a).id ≡ a.id
  unfolding deleted
  id-deleted now a = refl

  names_itself : (i : HolidayItem) → with_id i.id i ≡ true
  unfolding with_id
  names_itself i = ground arith

  same_id_active :
      (j : ℕ) (a b : HolidayItem)
      → active_with_id j a ≡ true
      → active_with_id j b ≡ true
      → same_id a b ≡ true
  unfolding same_id active_with_id
  same_id_active j a b ha hb = ground arith

  module _ (id u : ℕ) (i : HolidayItem) (w : World) (h : IsWellFormed w.db.holiday_items)
      (found : get_active_by_id id w ≡ some i) where
    first_found : first (active_with_id id) w.db.holiday_items ≡ some i
    first_found = found_first id i w found

    at_id : i.id ≡ id
    at_id = (found_item id w.db.holiday_items i h.0 first_found).1

    -- The map after an update of the item.
    pub view-write_item :
        (d : ItemData) (j : ℕ)
        → view (write_item id i d u w).1 j
          ≡ (if id == j then some (changed d (note i)) else view w j)
    unfolding note_of
    view-write_item d j = elim (Bool-cases (id == j)) [
      | inl here ↦
          let e : id ≡ j = ground arith in
          let hit =
            first-update_first_in same_id (active_with_id id) (with_id i.id) (updated w.now d)
              (same_id-with_id i.id) (active-updated id w.now d) w.db.holiday_items i h.0
              first_found (names_itself i) in
          ground (
            arith,
            view_eq (write_item id i d u w).1 _ id (items-write_item id u i d w h found),
            hit,
            note-updated w.now d i,
          )
      | inr other ↦
          let off : (i.id == j) ≡ false = rw at_id other in
          ground (
            arith,
            view_eq (write_item id i d u w).1 _ j (items-write_item id u i d w h found),
            view_eq w _ j refl,
            found-update_first i.id j (updated w.now d) w.db.holiday_items (id-updated w.now d) off,
          )
    ]

    -- The map after the deletion of the item.
    pub view-delete_item :
        (own : is_owner u i.owner_id ≡ true) (j : ℕ)
        → view (delete_item id u w).1 j ≡ (if id == j then none else view w j)
    unfolding note_of
    view-delete_item own j =
        let c' = update_first (with_id i.id) (deleted w.now) w.db.holiday_items in
        let items : (delete_item id u w).1.db.holiday_items ≡ c' =
          ap (λ (v : World). v.db.holiday_items) (after_delete id u i w found own)
          ∙ ap (λ (d : Db). d.holiday_items)
              ((invalidate_item_cache_frame id _).0 ∙ (frame_user_items_cache u _).0) in
        elim (Bool-cases (id == j)) [
          | inl here ↦
              let e : id ≡ j = ground arith in
              let gone =
                first-update_first_out same_id (active_with_id id) (with_id i.id) (deleted w.now)
                  (same_id_active id) (same_id-with_id i.id) (active-deleted id w.now)
                  w.db.holiday_items i h.0 first_found (names_itself i) in
              ground (arith, view_eq (delete_item id u w).1 c' id items, gone)
          | inr other ↦
              let off : (i.id == j) ≡ false = rw at_id other in
              ground (
                arith,
                view_eq (delete_item id u w).1 c' j items,
                view_eq w w.db.holiday_items j refl,
                found-update_first i.id j (deleted w.now) w.db.holiday_items (id-deleted w.now) off,
              )
        ]
