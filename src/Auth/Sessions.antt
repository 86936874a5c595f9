-- ===== src/Auth/Sessions.antt =====
-- App/modules/auth/service.py: the sessions, their tokens in MongoDB and the ids of their access
-- tokens in Redis.
pub mod Jtis
pub mod Issued
pub mod Accepted
pub mod Expired
use fastapi_newyear.Base.{
  ℕ, ◌-◌, ◌/◌, max, Bool, true, false, Option, none, some, List, [], ◌∷◌, Text, is_some,
}
use fastapi_newyear.Errors.{unauthorized}
use fastapi_newyear.Config.{second}
use fastapi_newyear.Models.Accounts.{User, UserPublicDto, SessionToken, access, refresh}
use fastapi_newyear.Env.{Env}
use fastapi_newyear.Redis.{Key, valid, word, num}
use fastapi_newyear.World.{Action, ◌>>=◌, ◌>>◌, pure, gets, lift, or_raise, uuid4, later}
use fastapi_newyear.Common.Cache
use fastapi_newyear.Common.Cache.{then_star}
use fastapi_newyear.Common.Jwt.{create_access_token, create_refresh_token}
use fastapi_newyear.Common.Passwords.{hash_token}
use fastapi_newyear.Users.Service
use fastapi_newyear.Auth.Tokens

pub record AuthSessionResultDto : Type 0 where
  pub user : UserPublicDto
  pub access_token : Text
  pub refresh_token : Text

module _ ⦃env : Env⦄ where
  unfoldable pub access_jti_key : ℕ → ℕ → Key
  access_jti_key user_id token_id =
      Cache.key (word "auth" ∷ word "user" ∷ num user_id ∷ word "access" ∷ num token_id ∷ [])

  unfoldable pub store_access_jti : ℕ → ℕ → ℕ → Action Bool
  unfolding later
  store_access_jti user_id token_id expires_at = do
    now ← later
    Cache.set (access_jti_key user_id token_id) valid (max 1 ((expires_at - now) / second))

  -- `none` where Redis does not answer the ping.
  jti_answer : ℕ → ℕ → Bool → Action (Option Bool)
  jti_answer user_id token_id false = pure none
  jti_answer user_id token_id true =
      Cache.get (access_jti_key user_id token_id) >>= λ v. pure (some (is_some v))

  unfoldable pub is_access_jti_valid : ℕ → ℕ → Action (Option Bool)
  unfolding jti_answer
  is_access_jti_valid user_id token_id = Cache.is_available >>= jti_answer user_id token_id

  unfoldable pub delete_access_jti : ℕ → ℕ → Action ℕ
  delete_access_jti user_id token_id = Cache.del_key (access_jti_key user_id token_id)

  unfoldable pub delete_access_jtis : ℕ → List SessionToken → Action (Unit {0})
  delete_access_jtis user_id [] = pure tt
  delete_access_jtis user_id (t ∷ tokens) =
      let rest = delete_access_jtis user_id tokens in delete_access_jti user_id t.id >>= λ _. rest

  unfoldable pub delete_access_jtis_for_session : ℕ → ℕ → Action (Unit {0})
  delete_access_jtis_for_session user_id session_id = do
    access_tokens ← gets (Tokens.list_valid_tokens_by_session session_id access)
    delete_access_jtis user_id access_tokens

  unfoldable pub delete_all_access_jtis_for_user : ℕ → Action ℕ
  delete_all_access_jtis_for_user user_id =
      Cache.del_by_pattern
        (then_star (Cache.key (word "auth" ∷ word "user" ∷ num user_id ∷ word "access" ∷ [])))

  -- The part of `_issue_session_for_user` behind the load of the user.
  unfoldable pub issue_session : User → Action AuthSessionResultDto
  issue_session user = do
    now ← gets (λ w. w.now)
    session_id ← uuid4
    access_token_id ← uuid4
    refresh_token_id ← uuid4
    (access_token, access_expires_at) ←
        lift (create_access_token now user.id session_id access_token_id)
    (refresh_token, refresh_expires_at) ←
        lift (create_refresh_token now user.id session_id refresh_token_id)
    Tokens.create_token access_token_id session_id user.id access (hash_token access_token)
        access_expires_at
    Tokens.create_token refresh_token_id session_id user.id refresh (hash_token refresh_token)
        refresh_expires_at
    store_access_jti user.id access_token_id access_expires_at
    profile ← lift (Service.public_profile user)
    pure (record { user = profile; access_token = access_token; refresh_token = refresh_token })

  unfoldable pub issue_session_for_user : ℕ → Action AuthSessionResultDto
  issue_session_for_user user_id = do
    found ← Service.get_active_by_id user_id
    user ← or_raise found (unauthorized "User not found")
    issue_session user
