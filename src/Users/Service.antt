-- ===== src/Users/Service.antt =====
-- App/modules/users/service.py: `UsersService`, a cache of public profiles in front of the
-- repository.
pub mod Frame
use fastapi_newyear.Base.{ℕ, Bool, Option, none, some, [], ◌∷◌, Text, lower, strip}
use fastapi_newyear.Errors.{Result, ok, err, validation_error}
use fastapi_newyear.Models.Accounts.{User, UserPublicDto}
use fastapi_newyear.Env.{Env}
use fastapi_newyear.Redis.{Key, Value, profile, word, num}
use fastapi_newyear.World.{World, Action, ◌>>=◌, ◌>>◌, pure, raise, gets, lift}
use fastapi_newyear.Common.Cache
use fastapi_newyear.Common.Passwords.{hash_password}
use fastapi_newyear.Users.Repository
use fastapi_newyear.Users.Repository.{NewUser}

module _ ⦃env : Env⦄ where
  -- `UserPublicDto.model_validate`, of a user and of a cached profile.
  unfoldable pub public_profile : User → Result UserPublicDto
  public_profile u = elim (env.email_str u.email) [
    | none ↦ err validation_error
    | some email ↦ ok (record {
      id = u.id;
      email = email;
      phone = u.phone;
      display_name = u.display_name;
      bio = u.bio;
      avatar_file_id = u.avatar_file_id;
      created_at = u.created_at;
    })
  ]

  unfoldable pub cached_profile : Value → Result UserPublicDto
  cached_profile (profile p) = elim (env.email_str p.email) [
    | none ↦ err validation_error
    | some email ↦ ok (record p { email = email })
  ]
  cached_profile _ = err validation_error

  -- The user that `get_active_by_id` makes of a cached profile: without password and `yandex_id`.
  unfoldable pub user_of_profile : UserPublicDto → User
  user_of_profile p = record {
    id = p.id;
    email = p.email;
    phone = p.phone;
    display_name = p.display_name;
    bio = p.bio;
    avatar_file_id = p.avatar_file_id;
    password_hash = none;
    password_salt = none;
    yandex_id = none;
    created_at = p.created_at;
    updated_at = none;
    deleted_at = none;
  }

  unfoldable pub profile_cache_key : ℕ → Key
  profile_cache_key user_id = Cache.key (word "users" ∷ word "profile" ∷ num user_id ∷ [])

  unfoldable pub cache_public_profile : User → Action Bool
  cache_public_profile user = do
    p ← lift (public_profile user)
    Cache.set (profile_cache_key user.id) (profile p) env.settings.user_profile_cache_ttl_seconds

  unfoldable pub invalidate_profile : ℕ → Action ℕ
  invalidate_profile user_id = Cache.del_key (profile_cache_key user_id)

  -- The two ways on from the cache.
  load_user : Option User → Action (Option User)
  load_user none = pure none
  load_user (some user) = cache_public_profile user >>= λ _. pure (some user)

  user_from : ℕ → Option Value → Action (Option User)
  unfolding load_user
  user_from user_id none = gets (Repository.get_active_by_id user_id) >>= load_user
  user_from user_id (some v) = do p ← lift (cached_profile v); pure (some (user_of_profile p))

  unfoldable pub get_active_by_id : ℕ → Action (Option User)
  unfolding user_from
  get_active_by_id user_id = Cache.get (profile_cache_key user_id) >>= user_from user_id

  unfoldable pub get_active_by_email : Text → World → Option User
  get_active_by_email email = Repository.get_active_by_email (strip (lower email))

  unfoldable pub get_by_yandex_id : Text → World → Option User
  get_by_yandex_id yandex_id = Repository.get_by_yandex_id yandex_id

  unfoldable pub create_local_user : Text → Text → Action User
  create_local_user email password = do
    (password_hash, password_salt) ← hash_password password
    user ← Repository.create (record {
      email = strip (lower email);
      password_hash = some password_hash;
      password_salt = some password_salt;
      yandex_id = none;
    })
    cache_public_profile user
    pure user

  unfoldable pub create_oauth_user : Text → Text → Action User
  create_oauth_user email yandex_id = do
    user ← Repository.create (record {
      email = strip (lower email);
      password_hash = none;
      password_salt = none;
      yandex_id = some yandex_id;
    })
    cache_public_profile user
    pure user

  unfoldable pub link_yandex_account : User → Text → Action (Option User)
  link_yandex_account user yandex_id = do
    updated ← Repository.update user.id (λ u. record u { yandex_id = some yandex_id })
    invalidate_profile user.id
    pure updated

  unfoldable pub update_password : User → Text → Action (Option User)
  update_password user new_password = do
    (password_hash, password_salt) ← hash_password new_password
    updated ←
        Repository.update user.id
          (λ u. record u { password_hash = some password_hash; password_salt = some password_salt })
    invalidate_profile user.id
    pure updated

  -- Validating `None` raises, as validating a user with a bad address does.
  unfoldable pub cache_updated : Option User → Action (Option User)
  cache_updated none = raise validation_error
  cache_updated (some user) = cache_public_profile user >>= λ _. pure (some user)

  -- `data` is the change that its fields make.
  unfoldable pub update_profile : User → (User → User) → Action (Option User)
  unfolding cache_updated
  update_profile user values = do
    updated ← Repository.update user.id values
    invalidate_profile user.id
    cache_updated updated
