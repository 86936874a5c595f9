-- ===== src/Models/Items.antt =====
-- App/modules/items/model.py, and the response models of items/schemas.py.
use fastapi_newyear.Base.{ℕ, Option, Text, List}

pub data ItemStatus : Type 0 where
  planned purchased done : ItemStatus

-- `title`, `description` and `status` are annotated as present, but an update writes whatever a
-- patch holds, a null too.
pub record HolidayItem : Type 0 where
  pub id : ℕ
  pub owner_id : Option ℕ
  pub title : Option Text
  pub description : Option Text
  pub status : Option ItemStatus
  pub created_at : ℕ
  pub updated_at : ℕ
  pub deleted_at : Option ℕ

pub record ItemResponseDto : Type 0 where
  pub id : ℕ
  pub title : Text
  pub description : Text
  pub status : ItemStatus
  pub created_at : ℕ
  pub updated_at : ℕ

pub record PaginationMetaDto : Type 0 where
  pub page : ℕ
  pub limit : ℕ
  pub total_items : ℕ
  pub total_pages : ℕ

pub record ItemListResponseDto : Type 0 where
  pub meta : PaginationMetaDto
  pub items : List ItemResponseDto
