-- ===== src/Common/Jwt.antt =====
-- App/common/security/jwt.py.
use fastapi_newyear.Base.{ℕ, ◌+◌, ◌/◌, Bool, false, Text, some, none, Option, if◌then◌else◌}
use fastapi_newyear.Errors.{Result, ok, err, unauthorized}
use fastapi_newyear.Config.{second, access_ttl, refresh_ttl}
use fastapi_newyear.Models.Accounts.{TokenType, access, refresh, same_type}
use fastapi_newyear.Env.{Env, Payload, Decoded, decoded, expired, invalid}

-- `payload.get("typ") != token_type`.
has_type : TokenType → Option TokenType → Bool
has_type t none = false
has_type t (some u) = same_type t u

module _ ⦃env : Env⦄ where
  -- The claims, whose times are whole seconds.
  unfoldable pub claims : ℕ → ℕ → ℕ → ℕ → TokenType → ℕ → Payload
  claims now user_id session_id token_id token_type ttl = record {
    sub = some (some user_id);
    sid = some (some session_id);
    jti = some (some token_id);
    typ = some token_type;
    iat = now / second;
    exp = (now + ttl) / second;
  }

  -- `_create_jwt`: the token and the time at which it expires.
  unfoldable pub create_jwt : ℕ → ℕ → ℕ → ℕ → TokenType → Text → ℕ → Text × ℕ
  create_jwt now user_id session_id token_id token_type secret ttl =
      (env.jwt.encode (claims now user_id session_id token_id token_type ttl) secret, now + ttl)

  -- The setting is parsed at each call, and is refused there if it is no duration.
  unfoldable pub create_access_token : ℕ → ℕ → ℕ → ℕ → Result (Text × ℕ)
  unfolding create_jwt
  create_access_token now user_id session_id token_id = elim (access_ttl env.settings) [
    | ok ttl ↦
        ok (create_jwt now user_id session_id token_id access env.settings.jwt_access_secret ttl)
    | err e ↦ err e
  ]

  unfoldable pub create_refresh_token : ℕ → ℕ → ℕ → ℕ → Result (Text × ℕ)
  unfolding create_jwt
  create_refresh_token now user_id session_id token_id = elim (refresh_ttl env.settings) [
    | ok ttl ↦
        ok (create_jwt now user_id session_id token_id refresh env.settings.jwt_refresh_secret ttl)
    | err e ↦ err e
  ]

  unfoldable pub check_access : Decoded → Result Payload
  unfolding has_type
  check_access (decoded p) =
      if has_type access p.typ then ok p else err (unauthorized "Invalid access token type")
  check_access expired = err (unauthorized "Access token expired")
  check_access invalid = err (unauthorized "Invalid access token")

  check_refresh : Decoded → Result Payload
  unfolding has_type
  check_refresh (decoded p) =
      if has_type refresh p.typ then ok p else err (unauthorized "Invalid refresh token type")
  check_refresh expired = err (unauthorized "Refresh token expired")
  check_refresh invalid = err (unauthorized "Invalid refresh token")

  unfoldable pub decode_access_token : ℕ → Text → Result Payload
  unfolding check_access
  decode_access_token now token =
      check_access (env.jwt.decode now token env.settings.jwt_access_secret)

  unfoldable pub decode_refresh_token : ℕ → Text → Result Payload
  unfolding check_refresh
  decode_refresh_token now token =
      check_refresh (env.jwt.decode now token env.settings.jwt_refresh_secret)
