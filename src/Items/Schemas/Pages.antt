-- ===== src/Items/Schemas/Pages.antt =====
-- The number of pages.
use fastapi_newyear.Base.{ℕ, ◌+◌, ◌-◌, ◌*◌, ◌/◌, ◌<◌, ◌≤◌, arith}
use native.Mathlib.Nat.{lt-div-mul-add, div-lt_iff_lt-mul}
use fastapi_newyear.Items.Schemas.{total_pages}

-- With a positive limit, all items have room on the pages, and not on fewer.
pub total_pages_lem :
    (total limit : ℕ)
    → 0 < limit
    → (total ≤ total_pages total limit * limit)
      × ((n : ℕ) → total ≤ n * limit → total_pages total limit ≤ n)
unfolding total_pages
total_pages_lem total limit pos =
    let below : total + (limit - 1) < (total + (limit - 1)) / limit * limit + limit =
      lt-div-mul-add pos in
    (
      ground arith,
      λ n fits.
          let room : total + (limit - 1) < (n + 1) * limit = omega arith in
          let least : (total + (limit - 1)) / limit < n + 1 = (div-lt_iff_lt-mul pos).1 room in
          ground arith,
    )
