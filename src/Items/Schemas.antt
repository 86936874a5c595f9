-- ===== src/Items/Schemas.antt =====
-- App/modules/items/schemas.py: the validation of requests, and the responses.
pub mod Pages
use fastapi_newyear.Base.{
  ℕ, ◌+◌, ◌-◌, ◌/◌, Bool, true, false, ◌&&◌, ◌||◌, Option, none, some, List, [], ◌∷◌, Text, length,
  leb, ltb, is_some, if◌then◌else◌,
}
use fastapi_newyear.Errors.{Result, ok, err, validation_error}
use fastapi_newyear.Models.Items.{
  HolidayItem, ItemStatus, planned, ItemResponseDto, ItemListResponseDto,
}
use fastapi_newyear.Items.Repository.{ItemData, set_or}

-- `min_length` and `max_length`.
abbrev pub of_length : ℕ → ℕ → Text → Bool
of_length low high s = leb low (length s) && leb (length s) high

abbrev pub title_valid : Text → Bool
title_valid s = of_length 3 150 s

abbrev pub description_valid : Text → Bool
description_valid s = of_length 3 1000 s

pub record ItemCreateDto : Type 0 where
  pub title : Text
  pub description : Text
  pub status : ItemStatus

-- A request to create an item: a status that is not given is "planned".
unfoldable pub item_create : Text → Text → Option ItemStatus → Option ItemCreateDto
item_create title description status =
    if title_valid title && description_valid description
    then some (record { title = title; description = description; status = set_or status planned })
    else none

-- A request to replace an item: every field is required.
pub record ItemUpdateDto : Type 0 where
  pub title : Text
  pub description : Text
  pub status : ItemStatus

unfoldable pub item_update : Text → Text → ItemStatus → Option ItemUpdateDto
item_update title description status =
    if title_valid title && description_valid description
    then some (record { title = title; description = description; status = status })
    else none

-- `model_dump()` of a replacement: all fields are set.
unfoldable pub update_data : ItemUpdateDto → ItemData
update_data d = record {
  title = some (some d.title);
  description = some (some d.description);
  status = some (some d.status);
}

-- A field of a patch that is unset, or null, passes its constraints.
abbrev pub passes {ℓ} : {A : Type ℓ} → (A → Bool) → Option (Option A) → Bool
passes valid (some (some a)) = valid a
passes valid _ = true

-- `is not None`, where a field that is unset has the default `None`.
abbrev pub is_given {ℓ} : {A : Type ℓ} → Option (Option A) → Bool
is_given (some (some a)) = true
is_given _ = false

-- A request to patch an item; `model_dump(exclude_unset=True)` of it is the data itself.
unfoldable pub item_patch : ItemData → Option ItemData
item_patch d =
    if passes title_valid d.title
      && passes description_valid d.description
      && (is_given d.title || is_given d.description || is_given d.status)
    then some d
    else none

pub record PaginationDto : Type 0 where
  pub page : ℕ
  pub limit : ℕ

unfoldable pub pagination : ℕ → ℕ → Option PaginationDto
pagination page limit =
    if ltb 0 page && leb 1 limit && leb limit 100
    then some (record { page = page; limit = limit })
    else none

response_of : HolidayItem → Option Text → Option Text → Option ItemStatus → Result ItemResponseDto
response_of i (some title) (some description) (some status) = ok (record {
  id = i.id;
  title = title;
  description = description;
  status = status;
  created_at = i.created_at;
  updated_at = i.updated_at;
})
response_of i _ _ _ = err validation_error

-- `ItemResponseDTO.model_validate`: a null is refused.
unfoldable pub item_response : HolidayItem → Result ItemResponseDto
unfolding response_of
item_response i = response_of i i.title i.description i.status

and_rest : ItemResponseDto → Result (List ItemResponseDto) → Result (List ItemResponseDto)
and_rest r (ok rs) = ok (r ∷ rs)
and_rest r (err e) = err e

first_of : Result ItemResponseDto → Result (List ItemResponseDto) → Result (List ItemResponseDto)
unfolding and_rest
first_of (ok r) rest = and_rest r rest
first_of (err e) rest = err e

unfoldable pub item_responses : List HolidayItem → Result (List ItemResponseDto)
unfolding first_of
item_responses [] = ok []
item_responses (i ∷ items) = first_of (item_response i) (item_responses items)

-- `ceil(total_items / limit) if total_items > 0 else 0`.
unfoldable pub total_pages : ℕ → ℕ → ℕ
total_pages total_items limit = if ltb 0 total_items then (total_items + (limit - 1)) / limit else 0

list_of : ℕ → ℕ → ℕ → Result (List ItemResponseDto) → Result ItemListResponseDto
list_of page limit total (err e) = err e
list_of page limit total (ok rs) = ok (record {
  meta = record {
    page = page;
    limit = limit;
    total_items = total;
    total_pages = total_pages total limit;
  };
  items = rs;
})

-- `ItemListResponseDTO.build`.
unfoldable pub build : List HolidayItem → ℕ → ℕ → ℕ → Result ItemListResponseDto
unfolding list_of
build items page limit total = list_of page limit total (item_responses items)
