-- ===== src/Auth/Service.antt =====
-- App/modules/auth/service.py: `AuthService`, without the sessions of Auth/Sessions.antt.
use fastapi_newyear.Base.{
  ℕ, ◌+◌, not, Option, none, some, [], ◌∷◌, Text, lower, strip, is_some, codes, text_eq,
  if◌then◌else◌, String,
}
use fastapi_newyear.Errors.{unauthorized, not_found, conflict, other_error}
use fastapi_newyear.Config.{reset_password_ttl, oauth_state_ttl}
use fastapi_newyear.Models.Accounts.{User, refresh}
use fastapi_newyear.Env.{Env}
use fastapi_newyear.Redis.{Key, word, free}
use fastapi_newyear.World.{
  Action, ◌>>=◌, ◌>>◌, pure, raise, gets, lift, or_raise, raise_if, modify, finally,
  on_duplicate_key,
}
use fastapi_newyear.Common.Cache
use fastapi_newyear.Common.Jwt.{decode_refresh_token}
use fastapi_newyear.Common.Passwords.{
  hash_token, verify_password, generate_random_token, generate_state,
}
use fastapi_newyear.Users.Service
use fastapi_newyear.Auth.Tokens
use fastapi_newyear.Auth.Resets
use fastapi_newyear.Auth.States
use fastapi_newyear.Auth.Sessions
use fastapi_newyear.Auth.Sessions.{AuthSessionResultDto}
use fastapi_newyear.Auth.Yandex
use fastapi_newyear.Notifications.Events.{publish_user_registered_event}

-- `uuid.UUID(payload["…"])`: a missing claim and a text that is no UUID raise alike.
unfoldable pub claim_id : Option (Option ℕ) → Option ℕ
claim_id none = none
claim_id (some c) = c

-- `not user.password_hash`: an empty text counts as none.
unfoldable pub nonempty : Option Text → Option Text
nonempty none = none
nonempty (some []) = none
nonempty (some (c ∷ s)) = some (c ∷ s)

pub record ForgotPasswordResponseDto : Type 0 where
  pub message : String
  pub reset_token : Option Text

abbrev pub instruction_sent : ForgotPasswordResponseDto
instruction_sent = record {
  message = "If the account exists, a reset instruction has been generated";
  reset_token = none;
}

module _ ⦃env : Env⦄ where
  unfoldable pub register_lock_key : Text → Key
  register_lock_key email =
      Cache.key (word "locks" ∷ word "auth" ∷ word "register" ∷ free email ∷ [])

  -- The body of the `try` in `register`.
  unfoldable pub register_locked : Text → Text → Action AuthSessionResultDto
  register_locked email password = do
    existing ← gets (Service.get_active_by_email email)
    raise_if (is_some existing) (conflict "User with this email already exists")
    user ← Service.create_local_user email password
    result ← Sessions.issue_session_for_user user.id
    publish_user_registered_event user
    pure result

  -- `except DuplicateKeyError` and `finally`.
  unfoldable pub register_under : Text → Text → Option ℕ → Action AuthSessionResultDto
  register_under email password none =
      raise (conflict "Registration for this email is already in progress")
  register_under email password (some l) =
      finally
        (λ w.
          let (r, w') = register_locked email password w in
          (on_duplicate_key (conflict "User with this email already exists") r, w'))
        (Cache.release_lock (register_lock_key email) l)

  unfoldable pub register : Text → Text → Action AuthSessionResultDto
  unfolding register_under
  register email password = do
    let email' = strip (lower email)
    l ← Cache.acquire_lock (register_lock_key email') 30
    register_under email' password l

  unfoldable pub login : Text → Text → Action AuthSessionResultDto
  login email password = do
    found ← gets (Service.get_active_by_email email)
    user ← or_raise found (unauthorized "Invalid email or password")
    password_hash ←
        or_raise (nonempty user.password_hash)
          (unauthorized "This user does not have a local password")
    password_salt ←
        or_raise (nonempty user.password_salt)
          (unauthorized "This user does not have a local password")
    raise_if (not (verify_password password password_salt password_hash))
        (unauthorized "Invalid email or password")
    Sessions.issue_session_for_user user.id

  unfoldable pub refresh_session : Text → Action AuthSessionResultDto
  refresh_session refresh_token = do
    now ← gets (λ w. w.now)
    payload ← lift (decode_refresh_token now refresh_token)
    token_id ← or_raise (claim_id payload.jti) (unauthorized "Invalid refresh token payload")
    session_id ← or_raise (claim_id payload.sid) (unauthorized "Invalid refresh token payload")
    user_id ← or_raise (claim_id payload.sub) (unauthorized "Invalid refresh token payload")
    record_found ← gets (Tokens.get_valid_token token_id (hash_token refresh_token) refresh)
    or_raise record_found (unauthorized "Refresh token revoked or not found")
    found ← Service.get_active_by_id user_id
    user ← or_raise found (unauthorized "User not found")
    modify (Tokens.revoke_by_session_id session_id)
    Sessions.delete_access_jtis_for_session user.id session_id
    Sessions.issue_session_for_user user.id

  unfoldable pub logout_current_session : ℕ → ℕ → Action (Unit {0})
  logout_current_session session_id user_id = do
    Sessions.delete_access_jtis_for_session user_id session_id
    modify (Tokens.revoke_by_session_id session_id)

  unfoldable pub logout_all_sessions : ℕ → Action (Unit {0})
  logout_all_sessions user_id = do
    Sessions.delete_all_access_jtis_for_user user_id
    modify (Tokens.revoke_all_for_user user_id)

  -- The part of `forgot_password` for an account that exists.
  unfoldable pub send_reset : Option User → Action ForgotPasswordResponseDto
  send_reset none = pure instruction_sent
  send_reset (some user) = do
    raw_token ← generate_random_token
    modify (Resets.mark_all_used_for_user user.id)
    now ← gets (λ w. w.now)
    Resets.create user.id (hash_token raw_token) (now + reset_password_ttl env.settings)
    pure (
        if env.settings.auth_debug_return_reset_token
        then record { message = "Reset token generated"; reset_token = some raw_token }
        else instruction_sent)

  unfoldable pub forgot_password : Text → Action ForgotPasswordResponseDto
  unfolding send_reset
  forgot_password email = gets (Service.get_active_by_email email) >>= send_reset

  unfoldable pub reset_password : Text → Text → Action (Unit {0})
  reset_password token new_password = do
    reset_found ← gets (Resets.get_valid_token (hash_token token))
    reset_record ← or_raise reset_found (unauthorized "Invalid or expired reset token")
    found ← Service.get_active_by_id reset_record.user_id
    user ← or_raise found (not_found "User not found")
    Service.update_password user new_password
    Resets.mark_used reset_record
    Sessions.delete_all_access_jtis_for_user user.id
    modify (Tokens.revoke_all_for_user user.id)

  unfoldable pub get_oauth_redirect_url : Text → Action Yandex.AuthorizeUrl
  get_oauth_redirect_url provider = do
    raise_if (not (text_eq provider (codes "yandex"))) (not_found "OAuth provider not supported")
    raw_state ← generate_state
    now ← gets (λ w. w.now)
    States.create provider (hash_token raw_state) (now + oauth_state_ttl env.settings)
    lift (Yandex.build_authorize_url raw_state)

  -- The account for a profile without a linked one.
  unfoldable pub oauth_account : Text → Text → Option User → Action (Option User)
  oauth_account email yandex_id none = do
    user ← Service.create_oauth_user email yandex_id
    pure (some user)
  oauth_account email yandex_id (some existing) = Service.link_yandex_account existing yandex_id

  unfoldable pub oauth_user : Text → Text → Option User → Action (Option User)
  oauth_user email yandex_id (some user) = pure (some user)
  oauth_user email yandex_id none =
      gets (Service.get_active_by_email email) >>= oauth_account email yandex_id

  -- `user.id` of `None` raises `AttributeError`.
  unfoldable pub handle_oauth_callback : Text → Text → Text → Action AuthSessionResultDto
  unfolding oauth_user
  handle_oauth_callback provider code state = do
    raise_if (not (text_eq provider (codes "yandex"))) (not_found "OAuth provider not supported")
    state_found ← gets (States.get_valid_state provider (hash_token state))
    state_record ← or_raise state_found (unauthorized "Invalid or expired OAuth state")
    States.mark_used state_record
    provider_access_token ← lift (Yandex.exchange_code code)
    (yandex_id, default_email) ← lift (Yandex.fetch_user_info provider_access_token)
    linked ← gets (Service.get_by_yandex_id yandex_id)
    found ← oauth_user (strip (lower default_email)) yandex_id linked
    user ← or_raise found other_error
    Sessions.issue_session_for_user user.id
