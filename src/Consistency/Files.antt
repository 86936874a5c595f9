-- ===== src/Consistency/Files.antt =====
-- The writes to the collections of files, as an interface, and that the operations of
-- App/modules/storage/service.py keep what they and the updates of accounts keep.
use fastapi_newyear.Base.{ℕ, Text, Option, none, some, refl, arith, codes}
use fastapi_newyear.Models.Accounts.{User}
use fastapi_newyear.Models.Files.{FileRecord}
use fastapi_newyear.Errors.{not_found, other_error}
use fastapi_newyear.Env.{Env}
use fastapi_newyear.World.{Db, ◌>>◌, uuid4}
use fastapi_newyear.World.Keeps.{Keeps, bind, reads, pure_keeps, gets_keeps, or_raise_keeps}
use fastapi_newyear.Common.Cache
use fastapi_newyear.Users.Service as Users
use fastapi_newyear.Storage.Repository as Files
use fastapi_newyear.Storage.Repository.{NewFile}
use fastapi_newyear.Storage.Names.{object_key}
use fastapi_newyear.Storage.Service
use fastapi_newyear.Storage.Service.{Upload}
use fastapi_newyear.Storage.Access.{get_owned_file_frame}
use fastapi_newyear.Storage.Profile
use fastapi_newyear.Storage.Profile.{ProfileUpdateDto}
use fastapi_newyear.Consistency.Accounts.{
  AccountWrites, get_active_by_id_keeps, update_profile_keeps,
}

module _ ⦃env : Env⦄ where
  pub record FileWrites (P : Db → Type 0) : Type 0 where
    pub create_file : (v : NewFile) → Keeps P (Files.create v)
    pub delete_file : (f : FileRecord) → Keeps P (Files.soft_delete f)
    pub drop_avatar : (file_id u : ℕ) → Keeps P (Service.drop_avatar file_id u)

  module _ (P : Db → Type 0) (writes : FileWrites P) where
    uuid4_keeps : Keeps P uuid4
    unfolding uuid4
    uuid4_keeps = reads (λ w. refl)

    put_object_keeps : (k : Text) → Keeps P (Service.put_object k)
    unfolding Service.put_object
    put_object_keeps k = reads (λ w. refl)

    cache_file_meta_keeps : (f : FileRecord) → Keeps P (Service.cache_file_meta f)
    unfolding Service.cache_file_meta Cache.set
    cache_file_meta_keeps f = reads (λ w. ground arith)

    upload_file_keeps :
        (filename mimetype : Text) (u size : ℕ)
        → Keeps P (Service.upload_file filename mimetype u size)
    unfolding Service.upload_file
    upload_file_keeps filename mimetype u size = bind uuid4_keeps (λ file_id.
        bind (put_object_keeps (object_key u file_id filename)) (λ _.
          bind
            (writes.create_file (record {
              id = file_id;
              user_id = u;
              original_name = filename;
              object_key = object_key u file_id filename;
              size = size;
              mimetype = mimetype;
              bucket = env.settings.minio_bucket;
            }))
            (λ f. bind (cache_file_meta_keeps f) (λ _. pure_keeps f))))

    validate_upload_keeps : (upload : Upload) → Keeps P (Service.validate_upload upload)
    unfolding Service.validate_upload
    validate_upload_keeps upload = reads (λ w. ground arith)

    pub upload_user_file_keeps :
        (upload : Upload) (u : ℕ) → Keeps P (Service.upload_user_file upload u)
    unfolding Service.upload_user_file
    upload_user_file_keeps upload u =
        bind (validate_upload_keeps upload)
          (λ q. upload_file_keeps (Service.or_text upload.filename (codes "upload")) q.0 u q.1)

    pub get_owned_file_keeps : (file_id u : ℕ) → Keeps P (Service.get_owned_file file_id u)
    get_owned_file_keeps file_id u = reads (λ w. (get_owned_file_frame file_id u w).0)

    pub get_file_stream_keeps : (k : Text) → Keeps P (Service.get_file_stream k)
    unfolding Service.get_file_stream
    get_file_stream_keeps k = reads (λ w. refl)

    -- The part of `delete_owned_file` behind the writes.
    forgotten_keeps :
        (file_id u : ℕ) (k : Text)
        → Keeps P (
            Service.invalidate_file_meta file_id
            >> Cache.del_key (Users.profile_cache_key u)
            >> Service.delete_file k)
    unfolding Service.invalidate_file_meta Cache.del_key Service.delete_file
    forgotten_keeps file_id u k = reads (λ w. refl)

    pub delete_owned_file_keeps : (file_id u : ℕ) → Keeps P (Service.delete_owned_file file_id u)
    unfolding Service.delete_owned_file Users.profile_cache_key Cache.del_key Service.delete_file
        Service.invalidate_file_meta
    delete_owned_file_keeps file_id u = bind (get_owned_file_keeps file_id u) (λ f.
        bind (writes.delete_file f)
          (λ _. bind (writes.drop_avatar file_id u) (λ _. forgotten_keeps file_id u f.object_key)))

    module _ (accounts : AccountWrites P) where
      pub get_profile_keeps : (u : ℕ) → Keeps P (Profile.get_profile u)
      unfolding Profile.get_profile
      get_profile_keeps u = bind (get_active_by_id_keeps P accounts u) (λ found.
          bind (or_raise_keeps found (not_found "User not found"))
            (λ user. gets_keeps (Profile.build_profile_response user)))

      check_avatar_keeps : (a : Option (Option ℕ)) (u : ℕ) → Keeps P (Profile.check_avatar a u)
      unfolding Profile.check_avatar
      check_avatar_keeps none u = pure_keeps _
      check_avatar_keeps (some none) u = pure_keeps _
      check_avatar_keeps (some (some a)) u = bind (get_owned_file_keeps a u) (λ _. pure_keeps _)

      pub update_profile_response_keeps :
          (d : ProfileUpdateDto) (user : User) → Keeps P (Profile.update_profile d user)
      unfolding Profile.update_profile
      update_profile_response_keeps d user =
          bind (check_avatar_keeps d.avatar_file_id user.id) (λ _.
            bind (update_profile_keeps P accounts user (Profile.profile_changes d)) (λ updated.
              bind (or_raise_keeps updated other_error)
                (λ u. gets_keeps (Profile.build_profile_response u))))
