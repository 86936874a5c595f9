-- ===== src/Items/Repository/Keys.antt =====
-- The ids of the items under the updates of the repository.
use fastapi_newyear.Base.{ℕ, ◌≡◌, refl, true, arith}
use fastapi_newyear.Models.Items.{HolidayItem}
use fastapi_newyear.Items.Repository.{ItemData, same_id, with_id, updated, deleted}

pub same_id-deleted : (now : ℕ) (a b : HolidayItem) → same_id (deleted now a) b ≡ same_id a b
unfolding same_id deleted
same_id-deleted now a b = refl

pub same_id-updated :
    (now : ℕ) (values : ItemData) (a b : HolidayItem)
    → same_id (updated now values a) b ≡ same_id a b
unfolding same_id updated
same_id-updated now values a b = refl

pub same_id-with_id :
    (item_id : ℕ) (a b : HolidayItem)
    → with_id item_id a ≡ true
    → with_id item_id b ≡ true
    → same_id a b ≡ true
unfolding same_id with_id
same_id-with_id item_id a b ha hb = ground arith
