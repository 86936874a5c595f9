-- ===== src/Storage/Service.antt =====
-- App/modules/storage/service.py: `StorageService`. The content of a file and its transfer are not modelled.
use fastapi_newyear.Base.{
  ℕ, ◌+◌, Bool, false, not, ◌&&◌, ◌||◌, Option, none, some, List, [], ◌∷◌, ◌++◌, Text, text_eq,
  codes, lower, ltb, ◌==◌, is_some, if◌then◌else◌,
}
use fastapi_newyear.Errors.{
  Result, ok, err, app_exception, forbidden, not_found, other_error, duplicate_key,
}
use fastapi_newyear.Config.{allowed_mime_types}
use fastapi_newyear.Models.Accounts.{User}
use fastapi_newyear.Models.Files.{FileRecord}
use fastapi_newyear.Env.{Env, S3Error, no_such_bucket, no_such_key, other_s3_error}
use fastapi_newyear.Redis.{Key, Value, file_meta, word, num}
use fastapi_newyear.World.{
  World, Action, ◌>>=◌, ◌>>◌, pure, gets, lift, or_raise, raise_if, modify, uuid4,
}
use fastapi_newyear.Common.Cache
use fastapi_newyear.Users.Repository
use fastapi_newyear.Storage.Repository as Files
use fastapi_newyear.Storage.Names.{object_key}

-- What the service reads of an `UploadFile`: `size` is the length of the stream.
pub record Upload : Type 0 where
  pub content_type : Option Text
  pub filename : Option Text
  pub size : ℕ

abbrev pub text_in : Text → List Text → Bool
text_in s [] = false
text_in s (t ∷ ts) = text_eq s t || text_in s ts

-- `upload.content_type or ""`, and `upload.filename or "upload"`.
abbrev pub or_text : Option Text → Text → Text
or_text none d = d
or_text (some []) d = d
or_text (some (c ∷ s)) d = c ∷ s

-- `user.avatar_file_id == file_id`.
abbrev pub has_avatar : ℕ → Option ℕ → Bool
has_avatar file_id none = false
has_avatar file_id (some a) = file_id == a

unfoldable pub user_with_avatar : ℕ → ℕ → User → Bool
user_with_avatar user_id file_id u = user_id == u.id && has_avatar file_id u.avatar_file_id

unfoldable pub without_avatar : User → User
without_avatar u = record u { avatar_file_id = none }

-- `_file_from_cache`: a copy of a deleted file counts as none.
unfoldable pub file_from_cache : Option Value → Result (Option FileRecord)
file_from_cache none = ok none
file_from_cache (some (file_meta f)) = ok (if is_some f.deleted_at then none else some f)
file_from_cache (some _) = err other_error

put_error : Option S3Error → Result (Unit {0})
put_error none = ok tt
put_error (some no_such_bucket) =
    err (app_exception "Storage bucket does not exist. Create it manually in MinIO Console")
put_error (some _) = err other_error

remove_error : Option S3Error → Result (Unit {0})
remove_error none = ok tt
remove_error (some no_such_key) = ok tt
remove_error (some _) = err other_error

exists_error : Bool → Option S3Error → Result Bool
exists_error found none = ok found
exists_error found (some other_s3_error) = err other_error
exists_error found (some _) = ok false

without_key : Text → List Text → List Text
without_key k [] = []
without_key k (j ∷ ks) = let rest = without_key k ks in if text_eq k j then rest else j ∷ rest

module _ ⦃env : Env⦄ where
  unfoldable pub meta_cache_key : ℕ → Key
  meta_cache_key file_id = Cache.key (word "files" ∷ num file_id ∷ word "meta" ∷ [])

  unfoldable pub cache_file_meta : FileRecord → Action Bool
  cache_file_meta f =
      Cache.set (meta_cache_key f.id) (file_meta f) env.settings.file_meta_cache_ttl_seconds

  unfoldable pub invalidate_file_meta : ℕ → Action ℕ
  invalidate_file_meta file_id = Cache.del_key (meta_cache_key file_id)

  -- The type and the size.
  unfoldable pub validate_upload : Upload → Action (Text × ℕ)
  validate_upload upload = do
    let mimetype = lower (or_text upload.content_type [])
    raise_if (not (text_in mimetype (allowed_mime_types env.settings)))
        (app_exception "Unsupported file type")
    raise_if (not (ltb 0 upload.size)) (app_exception "File is empty")
    raise_if (ltb env.settings.max_upload_size_bytes upload.size)
        (app_exception "File is too large")
    pure (mimetype, upload.size)

  -- A call of the MinIO client that does not raise changes the keys; a test of a missing object raises.
  call_minio : (List Text → List Text) → World → World
  call_minio f w = record w {
    bucket = record {
      keys = if is_some (env.minio_error w.bucket.calls) then w.bucket.keys else f w.bucket.keys;
      calls = w.bucket.calls + 1;
    };
  }

  unfoldable pub put_object : Text → Action (Unit {0})
  unfolding call_minio put_error
  put_object object_name w =
      (put_error (env.minio_error w.bucket.calls), call_minio (λ ks. ks ++ object_name ∷ []) w)

  -- `deleteFile`: the removal of a missing object is no error.
  unfoldable pub delete_file : Text → Action (Unit {0})
  unfolding call_minio remove_error without_key
  delete_file object_name w =
      (remove_error (env.minio_error w.bucket.calls), call_minio (without_key object_name) w)

  -- `getFileStream`: every error of the client is raised.
  unfoldable pub get_file_stream : Text → Action (Unit {0})
  unfolding call_minio
  get_file_stream object_name w = (
    if is_some (env.minio_error w.bucket.calls) then err other_error else ok tt,
    call_minio (λ ks. ks) w,
  )

  unfoldable pub file_exists : Text → Action Bool
  unfolding call_minio exists_error
  file_exists object_name w = (
    exists_error (text_in object_name w.bucket.keys) (env.minio_error w.bucket.calls),
    call_minio (λ ks. ks) w,
  )

  unfoldable pub upload_file : Text → Text → ℕ → ℕ → Action FileRecord
  unfolding uuid4
  upload_file filename mimetype user_id size = do
    file_id ← uuid4
    let key = object_key user_id file_id filename
    put_object key
    f ← Files.create (record {
      id = file_id;
      user_id = user_id;
      original_name = filename;
      object_key = key;
      size = size;
      mimetype = mimetype;
      bucket = env.settings.minio_bucket;
    })
    cache_file_meta f
    pure f

  unfoldable pub upload_user_file : Upload → ℕ → Action FileRecord
  upload_user_file upload user_id = do
    (mimetype, size) ← validate_upload upload
    upload_file (or_text upload.filename (codes "upload")) mimetype user_id size

  -- The file if it is the user's.
  check_owner : ℕ → FileRecord → Action FileRecord
  check_owner user_id f = do
    raise_if (not (f.user_id == user_id)) (forbidden "You do not have access to this file")
    pure f

  owned_from : ℕ → ℕ → Option FileRecord → Action FileRecord
  unfolding check_owner
  owned_from file_id user_id (some f) = check_owner user_id f
  owned_from file_id user_id none = do
    found ← gets (Files.get_active_by_id file_id)
    f ← or_raise found (not_found "File not found")
    check_owner user_id f
    cache_file_meta f
    pure f

  unfoldable pub get_owned_file : ℕ → ℕ → Action FileRecord
  unfolding owned_from
  get_owned_file file_id user_id = do
    v ← Cache.get (meta_cache_key file_id)
    cached ← lift (file_from_cache v)
    owned_from file_id user_id cached

  -- The update of the user's avatar in `delete_owned_file`.
  unfoldable pub drop_avatar : ℕ → ℕ → Action (Unit {0})
  drop_avatar file_id user_id = do
    users ← gets (λ w. w.db.users)
    stored ←
        or_raise
          (env.mongo.update_one Repository.same_keys (user_with_avatar user_id file_id)
            without_avatar users)
          duplicate_key
    modify (Repository.set_users stored)

  unfoldable pub delete_owned_file : ℕ → ℕ → Action (Unit {0})
  delete_owned_file file_id user_id = do
    f ← get_owned_file file_id user_id
    Files.soft_delete f
    drop_avatar file_id user_id
    invalidate_file_meta file_id
    Cache.del_key (Cache.key (word "users" ∷ word "profile" ∷ num user_id ∷ []))
    delete_file f.object_key
