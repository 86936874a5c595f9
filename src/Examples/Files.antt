-- ===== src/Examples/Files.antt =====
-- Witnesses of the theorems on files.
use fastapi_newyear.Base.{
  ℕ, ◌≤◌, ◌<◌, ◌≡◌, refl, true, none, some, [], ◌∷◌, Text, arith, codes, lower, first, has,
  IsUnique,
}
use fastapi_newyear.Config.{allowed_mime_types}
use fastapi_newyear.Errors.{ok, err, not_found}
use fastapi_newyear.Models.Files.{FileRecord}
use fastapi_newyear.World.{World, Db}
use fastapi_newyear.Storage.Repository.{same_keys, get_active_by_id}
use fastapi_newyear.Storage.Service.{
  Upload, or_text, text_in, validate_upload, get_owned_file, delete_owned_file,
}
use fastapi_newyear.Storage.Access.{
  get_owned_file_owner, validate_upload_lem, get_owned_file-delete_owned_file,
}
use fastapi_newyear.Storage.Profile.{ProfileUpdateDto, ProfileResponseDto, update_profile}
use fastapi_newyear.Storage.Avatars.{update_profile_avatar}
use fastapi_newyear.Examples.Accounts.{frost}
use fastapi_newyear.Examples.Environment.{env, settings, empty_db, empty_world}

abbrev card : FileRecord
card = record {
  id = 401;
  user_id = 103;
  original_name = codes "card.png";
  object_key = codes "users/103/files/401.png";
  size = 128000;
  mimetype = codes "image/png";
  bucket = codes "wp-files";
  created_at = 900000000;
  updated_at = 900000000;
  deleted_at = none;
}

abbrev stored_db : Db
stored_db = record empty_db { files = card ∷ [] }

abbrev stored : World
stored = record empty_world {
  db = stored_db;
  bucket = record { keys = codes "users/103/files/401.png" ∷ []; calls = 0 };
}

given : (get_owned_file 401 103 stored).0 ≡ ok card
unfolding get_owned_file fastapi_newyear.Common.Cache.get
    fastapi_newyear.Storage.Service.file_from_cache fastapi_newyear.Common.Cache.Client.get
    fastapi_newyear.Examples.Keys.get get_active_by_id first
    fastapi_newyear.Storage.Repository.active_with_id
    fastapi_newyear.Storage.Service.cache_file_meta fastapi_newyear.Common.Cache.set
given = refl

active : get_active_by_id 401 stored ≡ some card
unfolding get_active_by_id first fastapi_newyear.Storage.Repository.active_with_id
active = refl

stored-IsUnique : IsUnique same_keys stored.db.files
unfolding has
stored-IsUnique = (refl, tt)

deletes : (delete_owned_file 401 103 stored).0 ≡ ok tt
unfolding delete_owned_file get_owned_file fastapi_newyear.Common.Cache.get
    fastapi_newyear.Storage.Service.file_from_cache fastapi_newyear.Common.Cache.Client.get
    fastapi_newyear.Examples.Keys.get get_active_by_id first
    fastapi_newyear.Storage.Repository.active_with_id
    fastapi_newyear.Storage.Service.cache_file_meta fastapi_newyear.Common.Cache.set
    fastapi_newyear.Storage.Repository.soft_delete fastapi_newyear.Storage.Service.drop_avatar
    fastapi_newyear.Storage.Service.invalidate_file_meta fastapi_newyear.Common.Cache.del_key
    fastapi_newyear.Storage.Service.delete_file fastapi_newyear.Examples.Lists.update_unique
    fastapi_newyear.Storage.Repository.with_id has same_keys
    fastapi_newyear.Storage.Repository.deleted
deletes = refl

owner_example : card.user_id ≡ 103
owner_example = get_owned_file_owner 401 103 card stored given

abbrev upload : Upload
upload = record {
  content_type = some (codes "Image/PNG");
  filename = some (codes "card.png");
  size = 128000;
}

upload_example :
    let mimetype = lower (or_text upload.content_type []) in
    ((validate_upload upload stored).1 ≡ stored)
    × ((text_in mimetype (allowed_mime_types settings) ≡ true)
        → 0 < upload.size
        → upload.size ≤ settings.max_upload_size_bytes
        → (validate_upload upload stored).0 ≡ ok (mimetype, upload.size))
    × ((r : Text × ℕ)
        → (validate_upload upload stored).0 ≡ ok r
        → (r ≡ (mimetype, upload.size))
          × (text_in mimetype (allowed_mime_types settings) ≡ true)
          × (0 < upload.size)
          × (upload.size ≤ settings.max_upload_size_bytes))
upload_example = validate_upload_lem upload stored

deleted_file_example :
    (get_owned_file 401 103 (record (delete_owned_file 401 103 stored).1 { now = 1000000005 })).0
    ≡ err (not_found "File not found")
deleted_file_example =
    get_owned_file-delete_owned_file (λ n. refl) 401 103 103 1000000005 stored stored-IsUnique
      (λ f h. ground (arith, given, active)) deletes

abbrev avatar_update : ProfileUpdateDto
avatar_update = record { display_name = none; bio = none; avatar_file_id = some (some 401) }

abbrev framed_db : Db
framed_db = record stored_db { users = frost ∷ [] }

abbrev framed : World
framed = record stored { db = framed_db }

abbrev framed_profile : ProfileResponseDto
framed_profile = record {
  id = 103;
  email = codes "a@x";
  phone = none;
  display_name = none;
  bio = none;
  avatar_file_id = some 401;
  avatar = some (record {
    id = 401;
    original_name = codes "card.png";
    size = 128000;
    mimetype = codes "image/png";
    created_at = 900000000;
    updated_at = 900000000;
  });
  created_at = 1000000000;
}

frames : (update_profile avatar_update frost framed).0 ≡ ok framed_profile
unfolding update_profile fastapi_newyear.Storage.Profile.check_avatar get_owned_file
    fastapi_newyear.Common.Cache.get fastapi_newyear.Storage.Service.file_from_cache
    fastapi_newyear.Common.Cache.Client.get fastapi_newyear.Examples.Keys.get get_active_by_id first
    fastapi_newyear.Storage.Repository.active_with_id
    fastapi_newyear.Storage.Service.cache_file_meta fastapi_newyear.Common.Cache.set
    fastapi_newyear.Users.Service.update_profile fastapi_newyear.Users.Repository.update
    fastapi_newyear.Users.Service.invalidate_profile fastapi_newyear.Common.Cache.del_key
    fastapi_newyear.Base.update_first fastapi_newyear.Users.Repository.with_id
    fastapi_newyear.Users.Repository.by_id fastapi_newyear.Storage.Profile.profile_changes
    fastapi_newyear.Users.Service.cache_public_profile fastapi_newyear.Users.Service.public_profile
    fastapi_newyear.Storage.Profile.build_profile_response
    fastapi_newyear.Storage.Repository.get_active_by_id_for_user
    fastapi_newyear.Storage.Repository.active_of_user fastapi_newyear.Storage.Profile.to_response
    fastapi_newyear.Examples.Lists.update_unique has fastapi_newyear.Users.Repository.same_keys
frames = refl

avatar_example : (f : FileRecord) × ((get_owned_file 401 103 framed).0 ≡ ok f) × (f.user_id ≡ 103)
avatar_example = update_profile_avatar avatar_update frost 401 framed_profile framed refl frames
