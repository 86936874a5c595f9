-- ===== src/Items/Refinement/Creation.antt =====
-- A creation does what is specified for the map of the notes.
use fastapi_newyear.Base.{
  has_agree, ℕ, ◌≡◌, refl, true, false, ◌&&◌, some, [], ◌∷◌, ◌++◌, arith, first, has, first-append,
  has-first, has_less, ◌==◌, if◌then◌else◌, Bool-cases, inl, inr,
}
use fastapi_newyear.Models.Items.{HolidayItem}
use fastapi_newyear.Env.{Env}
use fastapi_newyear.World.{World, uuid4}
use fastapi_newyear.Common.Cache.{del_by_pattern}
use fastapi_newyear.Items.Repository.{active_with_id, with_id, same_id, new_item, create}
use fastapi_newyear.Items.Schemas.{ItemCreateDto}
use fastapi_newyear.Items.Service.{check_title, create_item, invalidate_user_items_cache}
use fastapi_newyear.Items.Refinement.{note, note_of, creation, new_note, view, title_free, may}
use fastapi_newyear.Items.Refinement.Writes.{view_eq}

module _ ⦃env : Env⦄ where
  abbrev drawn_item : ItemCreateDto → ℕ → World → HolidayItem
  drawn_item d u w = new_item (env.uuid4 w.drawn) w.now u d.title d.description d.status

  same_as_named :
      (d : ItemCreateDto) (u : ℕ) (w : World) (x : HolidayItem)
      → same_id (drawn_item d u w) x ≡ with_id (env.uuid4 w.drawn) x
  unfolding same_id new_item with_id
  same_as_named d u w x = refl

  -- The items after a creation.
  items-create_item :
      (d : ItemCreateDto) (u : ℕ) (w : World)
      → (create_item d u w).1.db.holiday_items ≡ (
          if may (creation d) u w
          then w.db.holiday_items ++ drawn_item d u w ∷ []
          else w.db.holiday_items)
  unfolding create_item check_title create uuid4 invalidate_user_items_cache del_by_pattern may
      title_free
  items-create_item d u w =
      let i = drawn_item d u w in
      let c = w.db.holiday_items in
      ground (
        arith,
        env.mongo.insert_one_lem same_id i c,
        has_agree (same_id i) (with_id (env.uuid4 w.drawn)) (same_as_named d u w) c,
      )

  active_is_named : (j : ℕ) (x : HolidayItem) → active_with_id j x ≡ true → with_id j x ≡ true
  unfolding active_with_id with_id
  active_is_named j x h = ground arith

  active_new :
      (d : ItemCreateDto) (u j : ℕ) (w : World)
      → active_with_id j (drawn_item d u w) ≡ (env.uuid4 w.drawn == j)
  unfolding active_with_id new_item
  active_new d u j w = ground arith

  free_is_new :
      (d : ItemCreateDto) (u : ℕ) (w : World)
      → may (creation d) u w ≡ true
      → has (with_id (env.uuid4 w.drawn)) w.db.holiday_items ≡ false
  unfolding may
  free_is_new d u w go = ground arith

  note-new_item : (d : ItemCreateDto) (u : ℕ) (w : World) → note (drawn_item d u w) ≡ new_note d u
  unfolding note new_item new_note
  note-new_item d u w = refl

  pub creation_refines :
      (d : ItemCreateDto) (u : ℕ) (w : World) (j : ℕ)
      → view (create_item d u w).1 j
        ≡ (if env.uuid4 w.drawn == j && may (creation d) u w then some (new_note d u) else view w j)
  unfolding note_of first
  creation_refines d u w j =
      let i = drawn_item d u w in
      let c = w.db.holiday_items in
      let p = active_with_id j in
      elim (Bool-cases (may (creation d) u w)) [
        | inr held ↦
            let items : (create_item d u w).1.db.holiday_items ≡ c =
              ground (arith, items-create_item d u w) in
            ground (arith, view_eq (create_item d u w).1 c j items, view_eq w c j refl)
        | inl go ↦
            let items : (create_item d u w).1.db.holiday_items ≡ c ++ i ∷ [] =
              ground (arith, items-create_item d u w) in
            let unused =
              has_less (active_with_id (env.uuid4 w.drawn)) (with_id (env.uuid4 w.drawn))
                (active_is_named (env.uuid4 w.drawn)) c (free_is_new d u w go) in
            ground (
              arith,
              view_eq (create_item d u w).1 (c ++ i ∷ []) j items,
              view_eq w c j refl,
              first-append p c (i ∷ []),
              has-first (active_with_id (env.uuid4 w.drawn)) c unused,
              active_new d u j w,
              note-new_item d u w,
            )
      ]
