-- ===== src/Storage/Repository.antt =====
-- App/modules/storage/repository.py: the collection `files`, and its unique indexes.
use fastapi_newyear.Base.{ℕ, Bool, ◌&&◌, ◌||◌, Option, none, some, List, Text, text_eq, ◌==◌}
use fastapi_newyear.Errors.{duplicate_key}
use fastapi_newyear.Models.Files.{FileRecord}
use fastapi_newyear.Env.{Env}
use fastapi_newyear.World.{World, Action, ◌>>=◌, ◌>>◌, pure, gets, or_raise, modify}
use fastapi_newyear.Users.Repository.{is_none}

unfoldable pub active_with_id : ℕ → FileRecord → Bool
active_with_id file_id f = file_id == f.id && is_none f.deleted_at

unfoldable pub active_of_user : ℕ → ℕ → FileRecord → Bool
active_of_user file_id user_id f = file_id == f.id && user_id == f.user_id && is_none f.deleted_at

unfoldable pub with_id : ℕ → FileRecord → Bool
with_id file_id f = file_id == f.id

-- The unique indexes: of `_id`, and of `object_key`.
unfoldable pub same_keys : FileRecord → FileRecord → Bool
same_keys a b = a.id == b.id || text_eq a.object_key b.object_key

unfoldable pub deleted : ℕ → FileRecord → FileRecord
deleted now f = record f { deleted_at = some now; updated_at = now }

abbrev pub set_files : List FileRecord → World → World
set_files c w = record w { db = record w.db { files = c } }

-- The keys that the caller of `create` gives.
pub record NewFile : Type 0 where
  pub id : ℕ
  pub user_id : ℕ
  pub original_name : Text
  pub object_key : Text
  pub size : ℕ
  pub mimetype : Text
  pub bucket : Text

unfoldable pub new_file : ℕ → NewFile → FileRecord
new_file now values = record {
  id = values.id;
  user_id = values.user_id;
  original_name = values.original_name;
  object_key = values.object_key;
  size = values.size;
  mimetype = values.mimetype;
  bucket = values.bucket;
  created_at = now;
  updated_at = now;
  deleted_at = none;
}

module _ ⦃env : Env⦄ where
  unfoldable pub get_active_by_id : ℕ → World → Option FileRecord
  get_active_by_id file_id w = env.mongo.find_one (active_with_id file_id) w.db.files

  unfoldable pub get_active_by_id_for_user : ℕ → ℕ → World → Option FileRecord
  get_active_by_id_for_user file_id user_id w =
      env.mongo.find_one (active_of_user file_id user_id) w.db.files

  unfoldable pub create : NewFile → Action FileRecord
  create values = do
    now ← gets (λ w. w.now)
    files ← gets (λ w. w.db.files)
    stored ← or_raise (env.mongo.insert_one same_keys (new_file now values) files) duplicate_key
    modify (set_files stored)
    pure (new_file now values)

  unfoldable pub soft_delete : FileRecord → Action (Unit {0})
  soft_delete f = do
    now ← gets (λ w. w.now)
    files ← gets (λ w. w.db.files)
    stored ←
        or_raise (env.mongo.update_one same_keys (with_id f.id) (deleted now) files) duplicate_key
    modify (set_files stored)
