-- ===== src/Storage/Access.antt =====
-- Who is given a file, and what is left of one after its deletion.
use fastapi_newyear.Base.{
  ℕ, ◌+◌, ◌≤◌, ◌<◌, ◌≡◌, refl, sym, ap, ◌∙◌, true, false, none, some, Text, arith, first,
  update_first, IsUnique, first-update_first_out, first_passes, inl, inr, lower, [], ◌∷◌,
}
use fastapi_newyear.Errors.{ok, err, not_found, Result-cases}
use fastapi_newyear.Config.{allowed_mime_types}
use fastapi_newyear.Models.Files.{FileRecord}
use fastapi_newyear.Env.{Env}
use fastapi_newyear.Redis.{Key, key_eq_refl, word, num}
use fastapi_newyear.World.{World}
use fastapi_newyear.Common.Cache
use fastapi_newyear.Common.Cache.Client
use fastapi_newyear.Common.Cache.Client.{peek}
use fastapi_newyear.Storage.Repository as Files
use fastapi_newyear.Storage.Repository.{
  active_with_id, with_id, same_keys, deleted, get_active_by_id,
}
use fastapi_newyear.Storage.Service.{
  Upload, or_text, text_in, validate_upload, get_owned_file, delete_owned_file, file_from_cache,
  cache_file_meta, meta_cache_key, invalidate_file_meta, drop_avatar, delete_file,
}

module _ ⦃env : Env⦄ where
  -- A file is given to its owner alone, from the cache or from the database, whichever calls of Redis fail and
  -- whatever the cache holds.
  pub get_owned_file_owner :
      (file_id user_id : ℕ) (f : FileRecord) (w : World)
      → (get_owned_file file_id user_id w).0 ≡ ok f
      → f.user_id ≡ user_id
  unfolding get_owned_file cache_file_meta Cache.set Cache.get Client.get
  get_owned_file_owner file_id user_id f w h = ground arith

  -- An upload is accepted exactly if its type is allowed and its size is positive and within the limit; then its
  -- type in small letters and its size, as they are, are the answer. It changes nothing.
  pub validate_upload_lem :
      (upload : Upload) (w : World)
      → let mimetype = lower (or_text upload.content_type []) in
        ((validate_upload upload w).1 ≡ w)
        × ((text_in mimetype (allowed_mime_types env.settings) ≡ true)
            → 0 < upload.size
            → upload.size ≤ env.settings.max_upload_size_bytes
            → (validate_upload upload w).0 ≡ ok (mimetype, upload.size))
        × ((r : Text × ℕ)
            → (validate_upload upload w).0 ≡ ok r
            → (r ≡ (mimetype, upload.size))
              × (text_in mimetype (allowed_mime_types env.settings) ≡ true)
              × (0 < upload.size)
              × (upload.size ≤ env.settings.max_upload_size_bytes))
  unfolding validate_upload
  validate_upload_lem upload w = (
    ground arith,
    λ allowed pos small. ground arith,
    λ r h. (ground arith, ground arith, ground arith, ground arith),
  )

  pub get_owned_file_frame :
      (file_id user_id : ℕ) (w : World)
      → ((get_owned_file file_id user_id w).1.db ≡ w.db)
        × ((get_owned_file file_id user_id w).1.now ≡ w.now)
  unfolding get_owned_file cache_file_meta Cache.set Cache.get Client.get
  get_owned_file_frame file_id user_id w = (ground arith, ground arith)

  same_keys-deleted : (now : ℕ) (a b : FileRecord) → same_keys (deleted now a) b ≡ same_keys a b
  unfolding same_keys deleted
  same_keys-deleted now a b = refl

  -- What a deletion does to the files.
  files-delete_owned_file :
      (file_id user_id : ℕ) (f : FileRecord) (w : World)
      → (get_owned_file file_id user_id w).0 ≡ ok f
      → (delete_owned_file file_id user_id w).1.db.files
        ≡ update_first (with_id f.id) (deleted w.now) w.db.files
  unfolding delete_owned_file Files.soft_delete drop_avatar invalidate_file_meta Cache.del_key
      delete_file
  files-delete_owned_file file_id user_id f w h =
      let frame = get_owned_file_frame file_id user_id w in
      let v : World = (get_owned_file file_id user_id w).1 in
      ground (
        arith,
        env.mongo.update_one_lem same_keys (with_id f.id) (deleted v.now) v.db.files
            (same_keys-deleted v.now),
      )

  found_by_deletion :
      (file_id user_id : ℕ) (w : World)
      → (delete_owned_file file_id user_id w).0 ≡ ok tt
      → (f : FileRecord) × ((get_owned_file file_id user_id w).0 ≡ ok f)
  unfolding delete_owned_file
  found_by_deletion file_id user_id w h = elim (Result-cases (get_owned_file file_id user_id w).0) [
    | inl found ↦ found
    | inr (x, e) ↦ ground arith
  ]

  -- With Redis working, the copy in the cache is gone.
  uncached :
      (up : (n : ℕ) → env.redis_fails n ≡ false) (file_id user_id t : ℕ) (w : World)
      → (delete_owned_file file_id user_id w).0 ≡ ok tt
      → peek t (meta_cache_key file_id) (delete_owned_file file_id user_id w).1.server ≡ none
  unfolding delete_owned_file Files.soft_delete drop_avatar invalidate_file_meta Cache.del_key
      Client.delete delete_file
  uncached up file_id user_id t w h =
      let v : World = (get_owned_file file_id user_id w).1 in
      let meta : Key = meta_cache_key file_id in
      ground (
        arith,
        up v.server.calls,
        up (v.server.calls + 1),
        env.redis.get-delete t meta meta v.server.dump,
        env.redis.get-delete t (Cache.key (word "users" ∷ word "profile" ∷ num user_id ∷ [])) meta
            (env.redis.delete meta v.server.dump),
        key_eq_refl meta,
      )

  refused_when_missing :
      (file_id v : ℕ) (w : World)
      → peek w.now (meta_cache_key file_id) w.server ≡ none
      → get_active_by_id file_id w ≡ none
      → (get_owned_file file_id v w).0 ≡ err (not_found "File not found")
  unfolding get_owned_file Cache.get Client.get file_from_cache get_active_by_id
  refused_when_missing file_id v w free missing = ground arith

  inactive : (file_id now : ℕ) (f : FileRecord) → active_with_id file_id (deleted now f) ≡ false
  unfolding active_with_id deleted
  inactive file_id now f = ground arith

  active_same :
      (file_id : ℕ) (a b : FileRecord)
      → active_with_id file_id a ≡ true
      → active_with_id file_id b ≡ true
      → same_keys a b ≡ true
  unfolding same_keys active_with_id
  active_same file_id a b ha hb = ground arith

  named_same :
      (file_id : ℕ) (a b : FileRecord)
      → with_id file_id a ≡ true
      → with_id file_id b ≡ true
      → same_keys a b ≡ true
  unfolding same_keys with_id
  named_same file_id a b ha hb = ground arith

  named_active :
      (file_id : ℕ) (f : FileRecord) → active_with_id file_id f ≡ true → with_id f.id f ≡ true
  unfolding active_with_id with_id
  named_active file_id f h = ground arith

  missing_after :
      (file_id : ℕ) (f : FileRecord) (w w' : World)
      → IsUnique same_keys w.db.files
      → get_active_by_id file_id w ≡ some f
      → w'.db.files ≡ update_first (with_id f.id) (deleted w.now) w.db.files
      → get_active_by_id file_id w' ≡ none
  unfolding get_active_by_id
  missing_after file_id f w w' unique found after =
      let e = sym (env.mongo.find_one_lem (active_with_id file_id) w.db.files) ∙ found in
      env.mongo.find_one_lem (active_with_id file_id) w'.db.files
      ∙ ap (first (active_with_id file_id)) after
      ∙ first-update_first_out same_keys (active_with_id file_id) (with_id f.id) (deleted w.now)
          (active_same file_id) (named_same f.id) (inactive file_id w.now) w.db.files f unique e
          (named_active file_id f (first_passes (active_with_id file_id) w.db.files f e))

  -- Once a deletion has succeeded, every user gets 404 for the file, at any later time: no call of Redis fails, the
  -- ids and object keys of the files differ, and the owner was given the file as the database has it.
  pub get_owned_file-delete_owned_file :
      (up : (n : ℕ) → env.redis_fails n ≡ false) (file_id user_id v t : ℕ) (w : World)
      → IsUnique same_keys w.db.files
      → ((f : FileRecord)
          → (get_owned_file file_id user_id w).0 ≡ ok f
          → get_active_by_id file_id w ≡ some f)
      → (delete_owned_file file_id user_id w).0 ≡ ok tt
      → (get_owned_file file_id v (record (delete_owned_file file_id user_id w).1 { now = t })).0
        ≡ err (not_found "File not found")
  unfolding get_active_by_id
  get_owned_file-delete_owned_file up file_id user_id v t w unique coherent h =
      let (f, found) = found_by_deletion file_id user_id w h in
      refused_when_missing file_id v (record (delete_owned_file file_id user_id w).1 { now = t })
        (uncached up file_id user_id t w h)
        (missing_after file_id f w (delete_owned_file file_id user_id w).1 unique (coherent f found)
          (files-delete_owned_file file_id user_id f w found))
