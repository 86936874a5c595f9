-- ===== src/Items/Titles.antt =====
-- No user has two active items of one title: the invariant, and that the updates of the collection keep it.
pub mod Operations
use fastapi_newyear.Base.{
  ℕ, ◌≡◌, refl, sym, ◌∙◌, ap, Bool, true, false, ◌&&◌, not, none, some, Option, List, Text, arith,
  first, has, update_first, ◌++◌, [], ◌∷◌, IsUnique, IsUnique-append, IsUnique-update_first,
  IsUnique-update_first_new, first-has, has_less, has_none, first_named, first_passes, text_eq_sym,
  text_eq_iff, text_eq, ==_iff, ◌==◌,
}
use fastapi_newyear.Models.Items.{HolidayItem, ItemStatus}
use fastapi_newyear.Env.{Env}
use fastapi_newyear.World.{World}
use fastapi_newyear.Users.Repository.{is_none}
use fastapi_newyear.Items.Repository.Keys.{same_id-deleted, same_id-updated, same_id-with_id}
use fastapi_newyear.Items.Repository.{
  ItemData, same_text, is_owner, active_with_id, active_with_title, active_of_owner, with_id,
  same_id, new_item, updated, deleted,
}

abbrev same_owner : Option ℕ → Option ℕ → Bool
same_owner none b = false
same_owner (some o) b = is_owner o b

-- Both items are active, have one owner and one title.
unfoldable pub clashes : HolidayItem → HolidayItem → Bool
clashes a b =
    same_text a.title b.title
    && same_owner a.owner_id b.owner_id
    && is_none a.deleted_at
    && is_none b.deleted_at

-- The ids of the items differ, and so do the titles of a user's active items.
abbrev pub IsWellFormed : List HolidayItem → Type 0
IsWellFormed c = IsUnique same_id c × IsUnique clashes c

same_text_sym : (a b : Option Text) → same_text a b ≡ same_text b a
same_text_sym none none = refl
same_text_sym none (some b) = refl
same_text_sym (some a) none = refl
same_text_sym (some a) (some b) = text_eq_sym a b

same_owner_sym : (a b : Option ℕ) → same_owner a b ≡ same_owner b a
same_owner_sym none none = refl
same_owner_sym none (some b) = refl
same_owner_sym (some a) none = refl
same_owner_sym (some a) (some b) = ground arith

pub clashes_sym : (a b : HolidayItem) → clashes a b ≡ clashes b a
unfolding clashes
clashes_sym a b =
    ground (arith, same_text_sym a.title b.title, same_owner_sym a.owner_id b.owner_id)

pub same_id_sym : (a b : HolidayItem) → same_id a b ≡ same_id b a
unfolding same_id
same_id_sym a b = ground arith

-- An item with a title that the query for duplicates does not find clashes with no other.
new_title_clash :
    (u id now : ℕ) (title description : Text) (status : ItemStatus) (j : HolidayItem)
    → clashes (new_item id now u title description status) j ≡ true
    → active_with_title (some title) u none j ≡ true
unfolding clashes new_item active_with_title active_of_owner
new_title_clash u id now title description status j h = ground arith

pub IsWellFormed-append :
    (u id now : ℕ) (title description : Text) (status : ItemStatus) (c : List HolidayItem)
    → IsWellFormed c
    → first (active_with_title (some title) u none) c ≡ none
    → has (same_id (new_item id now u title description status)) c ≡ false
    → IsWellFormed (c ++ new_item id now u title description status ∷ [])
IsWellFormed-append u id now title description status c h free fresh = (
  IsUnique-append same_id same_id_sym c _ h.0 fresh,
  IsUnique-append clashes clashes_sym c _ h.1 (
      has_less _ (active_with_title (some title) u none)
        (new_title_clash u id now title description status) c (first-has _ c free)),
)

updated_clash :
    (u id now : ℕ) (title : Option Text) (values : ItemData) (i j : HolidayItem)
    → is_owner u i.owner_id ≡ true
    → values.title ≡ some title
    → i.id ≡ id
    → (clashes (updated now values i) j && not (with_id i.id j)) ≡ true
    → active_with_title title u (some id) j ≡ true
unfolding clashes updated active_with_title active_of_owner with_id
updated_clash u id now title values i j own set at h = ground arith

-- An update to a title that the query does not find.
pub IsWellFormed-update_title :
    (u id now : ℕ) (title : Option Text) (values : ItemData) (c : List HolidayItem)
    (i : HolidayItem)
    → IsWellFormed c
    → is_owner u i.owner_id ≡ true
    → values.title ≡ some title
    → i.id ≡ id
    → first (with_id i.id) c ≡ some i
    → first (active_with_title title u (some id)) c ≡ none
    → IsWellFormed (update_first (with_id i.id) (updated now values) c)
IsWellFormed-update_title u id now title values c i h own set at e free = (
  IsUnique-update_first same_id same_id_sym (updated now values) (same_id-updated now values)
      (with_id i.id) c h.0,
  IsUnique-update_first_new clashes same_id (with_id i.id) (updated now values) clashes_sym
      (same_id-with_id i.id) c i h.1 h.0 e
      (has_less _ (active_with_title title u (some id))
        (λ j. updated_clash u id now title values i j own set at) c (first-has _ c free)),
)

clashes_kept :
    (now : ℕ) (values : ItemData) (a b : HolidayItem)
    → values.title ≡ none
    → clashes (updated now values a) b ≡ clashes a b
unfolding clashes updated
clashes_kept now values a b unset = ground arith

-- An update that leaves the title alone.
pub IsWellFormed-update_rest :
    (id now : ℕ) (values : ItemData) (c : List HolidayItem)
    → IsWellFormed c
    → values.title ≡ none
    → IsWellFormed (update_first (with_id id) (updated now values) c)
IsWellFormed-update_rest id now values c h unset = (
  IsUnique-update_first same_id same_id_sym (updated now values) (same_id-updated now values)
      (with_id id) c h.0,
  IsUnique-update_first clashes clashes_sym (updated now values)
      (λ a b. clashes_kept now values a b unset) (with_id id) c h.1,
)

deleted_clash :
    (now : ℕ) (i j : HolidayItem) → (clashes (deleted now i) j && not (with_id i.id j)) ≡ false
unfolding clashes deleted
deleted_clash now i j = ground arith

pub IsWellFormed-delete :
    (now : ℕ) (c : List HolidayItem) (i : HolidayItem)
    → IsWellFormed c
    → first (with_id i.id) c ≡ some i
    → IsWellFormed (update_first (with_id i.id) (deleted now) c)
IsWellFormed-delete now c i h e = (
  IsUnique-update_first same_id same_id_sym (deleted now) (same_id-deleted now) (with_id i.id) c
      h.0,
  IsUnique-update_first_new clashes same_id (with_id i.id) (deleted now) clashes_sym
      (same_id-with_id i.id) c i h.1 h.0 e (has_none _ (deleted_clash now i) c),
)

active_names :
    (id : ℕ) (i : HolidayItem) → active_with_id id i ≡ true → (with_id i.id i ≡ true) × (i.id ≡ id)
unfolding active_with_id with_id
active_names id i h = (ground arith, ground arith)

-- An active item that is found by its id is the only item of that id.
pub found_item :
    (id : ℕ) (c : List HolidayItem) (i : HolidayItem)
    → IsUnique same_id c
    → first (active_with_id id) c ≡ some i
    → (first (with_id i.id) c ≡ some i) × (i.id ≡ id)
found_item id c i h e =
    let (named, at) = active_names id i (first_passes (active_with_id id) c i e) in
    (
      first_named same_id (active_with_id id) (with_id i.id) (same_id-with_id i.id) c i h e named,
      at,
    )
