-- ===== src/Storage/Avatars.antt =====
-- The avatars of profiles.
use fastapi_newyear.Base.{ℕ, ◌≡◌, some, arith, inl, inr}
use fastapi_newyear.Errors.{ok, Result-cases}
use fastapi_newyear.Models.Accounts.{User}
use fastapi_newyear.Models.Files.{FileRecord}
use fastapi_newyear.Env.{Env}
use fastapi_newyear.World.{World}
use fastapi_newyear.Storage.Service.{get_owned_file}
use fastapi_newyear.Storage.Profile.{
  ProfileUpdateDto, ProfileResponseDto, update_profile, check_avatar,
}
use fastapi_newyear.Storage.Access.{get_owned_file_owner}

module _ ⦃env : Env⦄ where
  -- An update of a profile that sets an avatar succeeds only where the user is given that file, and then the file
  -- is the user's own.
  pub update_profile_avatar :
      (payload : ProfileUpdateDto) (current_user : User) (a : ℕ) (r : ProfileResponseDto)
      (w : World)
      → payload.avatar_file_id ≡ some (some a)
      → (update_profile payload current_user w).0 ≡ ok r
      → (f : FileRecord) × ((get_owned_file a current_user.id w).0 ≡ ok f)
        × (f.user_id ≡ current_user.id)
  unfolding update_profile check_avatar
  update_profile_avatar payload current_user a r w set h =
      elim (Result-cases (get_owned_file a current_user.id w).0) [
        | inl (f, given) ↦ (f, given, get_owned_file_owner a current_user.id f w given)
        | inr (x, refused) ↦ ground arith
      ]
