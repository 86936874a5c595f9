-- ===== src/Items/Refinement/Commands.antt =====
-- The operations of `ItemService` do what is specified for the map of the notes.
use fastapi_newyear.Base.{
  ℕ, ◌≡◌, ap, Bool, true, false, ◌&&◌, none, some, arith, ◌==◌, if◌then◌else◌, Option-cases,
  Bool-cases, inl, inr,
}
use fastapi_newyear.Models.Items.{HolidayItem}
use fastapi_newyear.Env.{Env}
use fastapi_newyear.World.{World}
use fastapi_newyear.Items.Repository.{ItemData, is_owner, get_active_by_id}
use fastapi_newyear.Items.Schemas.{ItemUpdateDto, update_data}
use fastapi_newyear.Items.Service.{
  owned_item, check_title, check_patch, write_item, put_item, patch_item, delete_item,
}
use fastapi_newyear.Items.Titles.{IsWellFormed}
use fastapi_newyear.Items.Refinement.{
  note, Command, creation, replacement, patch, deletion, is_owned, changed_note, specified, view,
  title_free, patch_free, may, run,
}
use fastapi_newyear.Items.Refinement.Writes.{view-write_item, view-delete_item}
use fastapi_newyear.Items.Refinement.Creation.{creation_refines}

module _ ⦃env : Env⦄ where
  same_view : (v w : World) (j : ℕ) → v ≡ w → view v j ≡ view w j
  same_view v w j e = ap (λ (x : World). view x j) e

  view_found :
      (id : ℕ) (w : World) (i : HolidayItem)
      → get_active_by_id id w ≡ some i
      → view w id ≡ some (note i)
  unfolding view
  view_found id w i found = ground arith

  view_missing : (id : ℕ) (w : World) → get_active_by_id id w ≡ none → view w id ≡ none
  unfolding view
  view_missing id w missing = ground arith

  deletion_refines :
      (id u : ℕ) (w : World) (j : ℕ)
      → IsWellFormed w.db.holiday_items
      → view (delete_item id u w).1 j
        ≡ (if id == j && is_owned u (view w id) then none else view w j)
  unfolding delete_item owned_item is_owned note
  deletion_refines id u w j h = elim (Option-cases (get_active_by_id id w)) [
    | inl missing ↦
        let same : (delete_item id u w).1 ≡ w = ground arith in
        ground (arith, same_view (delete_item id u w).1 w j same, view_missing id w missing)
    | inr (i, found) ↦ elim (Bool-cases (is_owner u i.owner_id)) [
      | inr other ↦
          let same : (delete_item id u w).1 ≡ w = ground arith in
          ground (arith, same_view (delete_item id u w).1 w j same, view_found id w i found)
      | inl own ↦ ground (arith, view-delete_item id u i w h found own j, view_found id w i found)
    ]
  ]

  -- A write that goes ahead where the title is free, and else changes nothing.
  write_refines :
      (id u : ℕ) (d : ItemData) (free : Bool) (v w : World) (j : ℕ)
      → IsWellFormed w.db.holiday_items
      → (get_active_by_id id w ≡ none → v ≡ w)
      → ((i : HolidayItem)
          → get_active_by_id id w ≡ some i
          → (is_owner u i.owner_id && free) ≡ false
          → v ≡ w)
      → ((i : HolidayItem)
          → get_active_by_id id w ≡ some i
          → is_owner u i.owner_id ≡ true
          → free ≡ true
          → v ≡ (write_item id i d u w).1)
      → view v j ≡ (
          if id == j && is_owned u (view w id) && free
          then changed_note d (view w id)
          else view w j)
  unfolding is_owned note changed_note
  write_refines id u d free v w j h missed refused wrote =
      elim (Option-cases (get_active_by_id id w)) [
        | inl missing ↦ ground (arith, same_view v w j (missed missing), view_missing id w missing)
        | inr (i, found) ↦ elim (Bool-cases (is_owner u i.owner_id && free)) [
          | inr held ↦
              ground (arith, same_view v w j (refused i found held), view_found id w i found)
          | inl goes ↦
              let own : is_owner u i.owner_id ≡ true = ground arith in
              let go : free ≡ true = ground arith in
              ground (
                arith,
                same_view v (write_item id i d u w).1 j (wrote i found own go),
                view-write_item id u i w h found d j,
                view_found id w i found,
              )
        ]
      ]

  replacement_refines :
      (id u : ℕ) (d : ItemUpdateDto) (w : World) (j : ℕ)
      → IsWellFormed w.db.holiday_items
      → view (put_item id d u w).1 j ≡ (
          if id == j && is_owned u (view w id) && title_free (some d.title) u (some id) w
          then changed_note (update_data d) (view w id)
          else view w j)
  unfolding put_item owned_item check_title title_free
  replacement_refines id u d w j h =
      write_refines id u (update_data d) (title_free (some d.title) u (some id) w)
        (put_item id d u w).1 w j h (λ missing. ground arith) (λ i found held. ground arith)
        (λ i found own go. ground arith)

  patch_refines :
      (id u : ℕ) (d : ItemData) (w : World) (j : ℕ)
      → IsWellFormed w.db.holiday_items
      → view (patch_item id d u w).1 j ≡ (
          if id == j && is_owned u (view w id) && patch_free d.title u id w
          then changed_note d (view w id)
          else view w j)
  unfolding patch_item owned_item check_title check_patch title_free patch_free
  patch_refines id u d w j h =
      write_refines id u d (patch_free d.title u id w) (patch_item id d u w).1 w j h
        (λ missing. ground arith) (λ i found held. ground arith) (λ i found own go. ground arith)

  replaced :
      (id : ℕ) (d : ItemUpdateDto) (u : ℕ) (w : World) (j : ℕ)
      → IsWellFormed w.db.holiday_items
      → view (put_item id d u w).1 j
        ≡ specified (replacement id d) u (may (replacement id d) u w) (env.uuid4 w.drawn) (view w) j
  unfolding specified may
  replaced id d u w j h = replacement_refines id u d w j h

  patched :
      (id : ℕ) (d : ItemData) (u : ℕ) (w : World) (j : ℕ)
      → IsWellFormed w.db.holiday_items
      → view (patch_item id d u w).1 j
        ≡ specified (patch id d) u (may (patch id d) u w) (env.uuid4 w.drawn) (view w) j
  unfolding specified may
  patched id d u w j h = patch_refines id u d w j h

  -- The service of the items works as a map from ids to notes: after any command, whatever its answer, the map is as
  -- specified. A user changes and deletes no notes but the user's own; a note is created or changed only where the
  -- command may go ahead; and no other note changes. The items are well-formed, as they are in every reachable state.
  pub run_refines :
      (c : Command) (u : ℕ) (w : World) (j : ℕ)
      → IsWellFormed w.db.holiday_items
      → view (run c u w) j ≡ specified c u (may c u w) (env.uuid4 w.drawn) (view w) j
  unfolding run specified
  run_refines (creation d) u w j h = creation_refines d u w j
  run_refines (replacement i d) u w j h = replaced i d u w j h
  run_refines (patch i d) u w j h = patched i d u w j h
  run_refines (deletion i) u w j h = deletion_refines i u w j h
