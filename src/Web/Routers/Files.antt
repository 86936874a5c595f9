-- ===== src/Web/Routers/Files.antt =====
-- App/modules/storage/router.py and App/modules/storage/profile_router.py.
use fastapi_newyear.Base.{ℕ}
use fastapi_newyear.Models.Accounts.{User}
use fastapi_newyear.Env.{Env}
use fastapi_newyear.World.{Action, ◌>>=◌, ◌>>◌, pure}
use fastapi_newyear.Storage.Service
use fastapi_newyear.Storage.Service.{Upload}
use fastapi_newyear.Storage.Profile
use fastapi_newyear.Storage.Profile.{ProfileUpdateDto, to_response}
use fastapi_newyear.Web.{Response, plain, empty, file, profile, stream}

module _ ⦃env : Env⦄ where
  unfoldable pub upload_file : Upload → User → Action Response
  upload_file upload current_user = do
    f ← Service.upload_user_file upload current_user.id
    pure (plain 201 (file (to_response f)))

  -- The stream itself is sent after the response has started, and is not modelled.
  unfoldable pub download_file : ℕ → User → Action Response
  download_file file_id current_user = do
    f ← Service.get_owned_file file_id current_user.id
    Service.get_file_stream f.object_key
    pure (
        plain 200 (
          stream (record {
            media_type = f.mimetype;
            disposition_name = env.quote f.original_name;
            content_length = f.size;
          })))

  unfoldable pub delete_file : ℕ → User → Action Response
  delete_file file_id current_user = do
    Service.delete_owned_file file_id current_user.id
    pure (plain 204 empty)

  unfoldable pub get_profile : User → Action Response
  get_profile current_user = do
    r ← Profile.get_profile current_user.id
    pure (plain 200 (profile r))

  unfoldable pub update_profile : ProfileUpdateDto → User → Action Response
  update_profile payload current_user = do
    r ← Profile.update_profile payload current_user
    pure (plain 200 (profile r))
