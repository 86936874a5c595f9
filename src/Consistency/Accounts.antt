-- ===== src/Consistency/Accounts.antt =====
-- The writes to the collections of accounts and sessions, as an interface, and that the operations of
-- App/modules/users/service.py and App/modules/auth/service.py keep what these writes keep.
use fastapi_newyear.Base.{ℕ, Text, Option, none, some, refl}
use fastapi_newyear.Models.Accounts.{User, TokenType, PasswordResetToken, OAuthState}
use fastapi_newyear.Env.{Env}
use fastapi_newyear.World.{Db, Action, ◌>>=◌, ◌>>◌, pure, modify, token_hex}
use fastapi_newyear.World.Keeps.{Keeps, bind, reads, pure_keeps}
use fastapi_newyear.Common.Cache
use fastapi_newyear.Common.Passwords.{hash_password}
use fastapi_newyear.Users.Repository
use fastapi_newyear.Users.Repository.{NewUser}
use fastapi_newyear.Users.Service
use fastapi_newyear.Users.Service.Frame.{cache_public_profile_frame, get_active_by_id_frame}
use fastapi_newyear.Auth.Tokens
use fastapi_newyear.Auth.Resets
use fastapi_newyear.Auth.States

module _ ⦃env : Env⦄ where
  pub record AccountWrites (P : Db → Type 0) : Type 0 where
    pub create_user : (v : NewUser) → Keeps P (Repository.create v)
    pub update_user : (id : ℕ) (f : User → User) → Keeps P (Repository.update id f)
    pub create_token :
        (id sid u : ℕ) (ty : TokenType) (hash e : ℕ)
        → Keeps P (Tokens.create_token id sid u ty hash e)
    pub revoke_session : (sid : ℕ) → Keeps P (modify (Tokens.revoke_by_session_id sid))
    pub revoke_user : (u : ℕ) → Keeps P (modify (Tokens.revoke_all_for_user u))
    pub create_reset : (u hash e : ℕ) → Keeps P (Resets.create u hash e)
    pub use_reset : (t : PasswordResetToken) → Keeps P (Resets.mark_used t)
    pub use_resets : (u : ℕ) → Keeps P (modify (Resets.mark_all_used_for_user u))
    pub create_state : (p : Text) (hash e : ℕ) → Keeps P (States.create p hash e)
    pub use_state : (s : OAuthState) → Keeps P (States.mark_used s)

  module _ (P : Db → Type 0) (writes : AccountWrites P) where
    hash_password_keeps : (password : Text) → Keeps P (hash_password password)
    unfolding hash_password token_hex
    hash_password_keeps password = reads (λ w. refl)

    cache_public_profile_keeps : (u : User) → Keeps P (Service.cache_public_profile u)
    cache_public_profile_keeps u = reads (λ w. (cache_public_profile_frame u w).db)

    pub get_active_by_id_keeps : (id : ℕ) → Keeps P (Service.get_active_by_id id)
    get_active_by_id_keeps id = reads (λ w. (get_active_by_id_frame id w).db)

    invalidate_profile_keeps : (id : ℕ) → Keeps P (Service.invalidate_profile id)
    unfolding Service.invalidate_profile Cache.del_key
    invalidate_profile_keeps id = reads (λ w. refl)

    -- What `create_local_user` and `create_oauth_user` end with.
    stored_keeps :
        (v : NewUser)
        → Keeps P (Repository.create v >>= λ u. Service.cache_public_profile u >> pure u)
    stored_keeps v =
        bind (writes.create_user v) (λ u. bind (cache_public_profile_keeps u) (λ _. pure_keeps u))

    pub create_local_user_keeps :
        (email password : Text) → Keeps P (Service.create_local_user email password)
    unfolding Service.create_local_user
    create_local_user_keeps email password =
        bind (hash_password_keeps password) (λ q. stored_keeps _)

    pub create_oauth_user_keeps :
        (email yandex_id : Text) → Keeps P (Service.create_oauth_user email yandex_id)
    unfolding Service.create_oauth_user
    create_oauth_user_keeps email yandex_id = stored_keeps _

    changed_keeps :
        (user : User) (f : User → User) {A : Type 0} (k : Option User → Action A)
        → ((o : Option User) → Keeps P (k o))
        → Keeps P (
            Repository.update user.id f >>= λ updated.
            Service.invalidate_profile user.id >>= λ _. k updated)
    changed_keeps user f k hk =
        bind (writes.update_user user.id f)
          (λ updated. bind (invalidate_profile_keeps user.id) (λ _. hk updated))

    pub link_yandex_account_keeps :
        (user : User) (yandex_id : Text) → Keeps P (Service.link_yandex_account user yandex_id)
    unfolding Service.link_yandex_account
    link_yandex_account_keeps user yandex_id = changed_keeps user _ pure pure_keeps

    pub update_password_keeps :
        (user : User) (password : Text) → Keeps P (Service.update_password user password)
    unfolding Service.update_password
    update_password_keeps user password =
        bind (hash_password_keeps password) (λ q. changed_keeps user _ pure pure_keeps)

    cache_updated_keeps : (o : Option User) → Keeps P (Service.cache_updated o)
    unfolding Service.cache_updated
    cache_updated_keeps none = reads (λ w. refl)
    cache_updated_keeps (some u) = bind (cache_public_profile_keeps u) (λ _. pure_keeps _)

    pub update_profile_keeps :
        (user : User) (values : User → User) → Keeps P (Service.update_profile user values)
    unfolding Service.update_profile
    update_profile_keeps user values = changed_keeps user values _ cache_updated_keeps
