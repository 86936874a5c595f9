-- ===== src/Auth/Sessions/Expired.antt =====
-- The access token of a session that was issued lets nobody in once it has expired.
use fastapi_newyear.Base.{ℕ, ◌+◌, ◌*◌, ◌/◌, ◌≤◌, ◌≡◌, some, arith}
use fastapi_newyear.Errors.{ok, err, unauthorized}
use fastapi_newyear.Config.{second, access_ttl, refresh_ttl}
use fastapi_newyear.Models.Accounts.{User, access}
use fastapi_newyear.Env.{Env}
use fastapi_newyear.World.{World}
use fastapi_newyear.Common.Jwt.{claims, create_jwt, decode_access_token, check_access}
use fastapi_newyear.Auth.Sessions.{AuthSessionResultDto, issue_session}
use fastapi_newyear.Auth.Sessions.Issued.{access_jwt, nonempty_access, issue_session_stores}
use fastapi_newyear.Auth.Dependencies.{get_current_auth}

module _ ⦃env : Env⦄ (a b : ℕ) (ha : access_ttl env.settings ≡ ok a)
    (hb : refresh_ttl env.settings ≡ ok b) where
  decode_old :
      (user : User) (w : World) (t : ℕ)
      → (w.now + a) / second * second ≤ t
      → decode_access_token t (access_jwt user w a).0 ≡ err (unauthorized "Access token expired")
  unfolding decode_access_token check_access create_jwt claims
  decode_old user w t late = ground (
    arith,
    env.jwt.decode_late t
        (claims w.now user.id (env.uuid4 w.drawn) (env.uuid4 (w.drawn + 1)) access a)
        env.settings.jwt_access_secret (omega arith) late,
  )

  -- From the second in which it expires, the access token of a session that was issued is refused with 401 in every state
  -- of the application, whatever has happened since and whichever calls of Redis fail; the refusal changes nothing.
  pub get_current_auth_late :
      (user : User) (w v : World) (r : AuthSessionResultDto)
      → (issue_session user w).0 ≡ ok r
      → (w.now + a) / second * second ≤ v.now
      → get_current_auth (some r.access_token) v ≡ (err (unauthorized "Access token expired"), v)
  unfolding get_current_auth
  get_current_auth_late user w v r h late =
      let (_, _, _, issued, _) = issue_session_stores a b ha hb user w r h in
      rw issued (ground (arith, nonempty_access user w a, decode_old user w v.now late))
