-- ===== src/Auth/Dependencies.antt =====
-- App/modules/auth/dependencies.py: who a request comes from, by its access token.
pub mod Frame
use fastapi_newyear.Base.{Bool, true, false, Option, some, Text}
use fastapi_newyear.Errors.{unauthorized}
use fastapi_newyear.Models.Accounts.{User, access}
use fastapi_newyear.Env.{Env, Payload}
use fastapi_newyear.World.{Action, ◌>>=◌, ◌>>◌, pure, gets, lift, or_raise, raise_if}
use fastapi_newyear.Common.Jwt.{decode_access_token}
use fastapi_newyear.Common.Passwords.{hash_token}
use fastapi_newyear.Users.Service
use fastapi_newyear.Auth.Tokens
use fastapi_newyear.Auth.Sessions
use fastapi_newyear.Auth.Service.{claim_id, nonempty}

pub record AuthContext : Type 0 where
  pub user : User
  pub payload : Payload

-- `redis_status is False`.
abbrev is_refused : Option Bool → Bool
is_refused (some false) = true
is_refused _ = false

module _ ⦃env : Env⦄ where
  -- The argument is the cookie.
  unfoldable pub get_current_auth : Option Text → Action AuthContext
  get_current_auth cookie = do
    access_token ← or_raise (nonempty cookie) (unauthorized "Missing access token")
    now ← gets (λ w. w.now)
    payload ← lift (decode_access_token now access_token)
    token_id ← or_raise (claim_id payload.jti) (unauthorized "Invalid access token payload")
    user_id ← or_raise (claim_id payload.sub) (unauthorized "Invalid access token payload")
    redis_status ← Sessions.is_access_jti_valid user_id token_id
    raise_if (is_refused redis_status) (unauthorized "Access token revoked or not found")
    record_found ← gets (Tokens.get_valid_token token_id (hash_token access_token) access)
    or_raise record_found (unauthorized "Access token revoked or not found")
    found ← Service.get_active_by_id user_id
    user ← or_raise found (unauthorized "User not found")
    pure (record { user = user; payload = payload })
