-- ===== src/Storage/Profile.antt =====
-- App/modules/storage/service.py: `ProfileService`, and the models of App/modules/storage/schemas.py.
use fastapi_newyear.Base.{ℕ, Bool, true, ◌&&◌, Option, none, some, Text, length, leb, if◌then◌else◌}
use fastapi_newyear.Errors.{not_found, other_error}
use fastapi_newyear.Models.Accounts.{User}
use fastapi_newyear.Models.Files.{FileRecord}
use fastapi_newyear.Env.{Env}
use fastapi_newyear.World.{World, Action, ◌>>=◌, ◌>>◌, pure, gets, or_raise}
use fastapi_newyear.Users.Service
use fastapi_newyear.Storage.Repository as Files
use fastapi_newyear.Storage.Service as Storage

pub record FileResponseDto : Type 0 where
  pub id : ℕ
  pub original_name : Text
  pub size : ℕ
  pub mimetype : Text
  pub created_at : ℕ
  pub updated_at : ℕ

-- `to_response`.
unfoldable pub to_response : FileRecord → FileResponseDto
to_response f = record {
  id = f.id;
  original_name = f.original_name;
  size = f.size;
  mimetype = f.mimetype;
  created_at = f.created_at;
  updated_at = f.updated_at;
}

-- A field of an update that is not set is `none`; one that is set may be null.
pub record ProfileUpdateDto : Type 0 where
  pub display_name : Option (Option Text)
  pub bio : Option (Option Text)
  pub avatar_file_id : Option (Option ℕ)

abbrev pub at_most : ℕ → Option (Option Text) → Bool
at_most n (some (some s)) = leb (length s) n
at_most n _ = true

-- The validation of a request.
unfoldable pub profile_update : ProfileUpdateDto → Option ProfileUpdateDto
profile_update d = if at_most 120 d.display_name && at_most 500 d.bio then some d else none

abbrev pub set_or {ℓ} : {A : Type ℓ} → Option A → A → A
set_or none a = a
set_or (some b) a = b

unfoldable pub profile_changes : ProfileUpdateDto → User → User
profile_changes d u = record u {
  display_name = set_or d.display_name u.display_name;
  bio = set_or d.bio u.bio;
  avatar_file_id = set_or d.avatar_file_id u.avatar_file_id;
}

pub record ProfileResponseDto : Type 0 where
  pub id : ℕ
  pub email : Text
  pub phone : Option Text
  pub display_name : Option Text
  pub bio : Option Text
  pub avatar_file_id : Option ℕ
  pub avatar : Option FileResponseDto
  pub created_at : ℕ

response_of : Option FileRecord → Option FileResponseDto
response_of none = none
response_of (some f) = some (to_response f)

module _ ⦃env : Env⦄ where
  avatar_of : Option ℕ → ℕ → World → Option FileResponseDto
  unfolding response_of
  avatar_of none user_id w = none
  avatar_of (some a) user_id w = response_of (Files.get_active_by_id_for_user a user_id w)

  unfoldable pub build_profile_response : User → World → ProfileResponseDto
  unfolding avatar_of
  build_profile_response u w = record {
    id = u.id;
    email = u.email;
    phone = u.phone;
    display_name = u.display_name;
    bio = u.bio;
    avatar_file_id = u.avatar_file_id;
    avatar = avatar_of u.avatar_file_id u.id w;
    created_at = u.created_at;
  }

  unfoldable pub get_profile : ℕ → Action ProfileResponseDto
  get_profile user_id = do
    found ← Service.get_active_by_id user_id
    user ← or_raise found (not_found "User not found")
    gets (build_profile_response user)

  -- An avatar that is set and is no null has to be a file of the user.
  unfoldable pub check_avatar : Option (Option ℕ) → ℕ → Action (Unit {0})
  check_avatar (some (some a)) user_id = do Storage.get_owned_file a user_id; pure tt
  check_avatar _ user_id = pure tt

  -- An attribute of `None` raises `AttributeError`.
  unfoldable pub update_profile : ProfileUpdateDto → User → Action ProfileResponseDto
  update_profile payload current_user = do
    check_avatar payload.avatar_file_id current_user.id
    updated ← Service.update_profile current_user (profile_changes payload)
    user ← or_raise updated other_error
    gets (build_profile_response user)
