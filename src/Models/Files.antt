-- ===== src/Models/Files.antt =====
-- App/modules/storage/model.py.
use fastapi_newyear.Base.{ℕ, Option, Text}

pub record FileRecord : Type 0 where
  pub id : ℕ
  pub user_id : ℕ
  pub original_name : Text
  pub object_key : Text
  pub size : ℕ
  pub mimetype : Text
  pub bucket : Text
  pub created_at : ℕ
  pub updated_at : ℕ
  pub deleted_at : Option ℕ
