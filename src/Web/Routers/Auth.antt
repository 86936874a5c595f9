-- ===== src/Web/Routers/Auth.antt =====
-- App/modules/auth/router.py, and the one route of App/modules/users/router.py.
use fastapi_newyear.Base.{ℕ, Option, Text}
use fastapi_newyear.Errors.{unauthorized}
use fastapi_newyear.Env.{Env}
use fastapi_newyear.World.{Action, ◌>>=◌, ◌>>◌, pure, lift, or_raise}
use fastapi_newyear.Common.Cookies.{set_auth_cookies, clear_auth_cookies}
use fastapi_newyear.Users.Service as Users
use fastapi_newyear.Auth.Sessions.{AuthSessionResultDto}
use fastapi_newyear.Auth.Schemas.{Credentials, ResetPasswordDto}
use fastapi_newyear.Auth.Service
use fastapi_newyear.Auth.Service.{claim_id, nonempty}
use fastapi_newyear.Auth.Dependencies.{AuthContext}
use fastapi_newyear.Web.{
  Response, Body, plain, message, user, reset_instruction, to_provider, to_frontend,
}

module _ ⦃env : Env⦄ where
  -- The response with the cookies of a new session.
  unfoldable pub with_cookies : ℕ → Body → AuthSessionResultDto → Action Response
  with_cookies status body result = do
    cookies ← lift (set_auth_cookies result.access_token result.refresh_token)
    pure (record { status = status; body = body; cookies = cookies })

  unfoldable pub register : Credentials → Action Response
  unfolding with_cookies
  register payload = do
    result ← Service.register payload.email payload.password
    with_cookies 201 (user result.user) result

  unfoldable pub create_user : Credentials → Action Response
  unfolding with_cookies
  create_user payload = do
    result ← Service.register payload.email payload.password
    with_cookies 201 (user result.user) result

  unfoldable pub login : Credentials → Action Response
  unfolding with_cookies
  login payload = do
    result ← Service.login payload.email payload.password
    with_cookies 200 (user result.user) result

  -- The argument is the cookie.
  unfoldable pub refresh_session : Option Text → Action Response
  unfolding with_cookies
  refresh_session cookie = do
    refresh_token ← or_raise (nonempty cookie) (unauthorized "Missing refresh token")
    result ← Service.refresh_session refresh_token
    with_cookies 200 (user result.user) result

  -- The response model validates the user.
  unfoldable pub whoami : AuthContext → Action Response
  whoami auth = do profile ← lift (Users.public_profile auth.user); pure (plain 200 (user profile))

  unfoldable pub logout : AuthContext → Action Response
  logout auth = do
    session_id ← or_raise (claim_id auth.payload.sid) (unauthorized "Invalid access token payload")
    Service.logout_current_session session_id auth.user.id
    pure (record {
      status = 200;
      body = message "Logged out successfully";
      cookies = clear_auth_cookies;
    })

  unfoldable pub logout_all : AuthContext → Action Response
  logout_all auth = do
    Service.logout_all_sessions auth.user.id
    pure (record {
      status = 200;
      body = message "All sessions logged out successfully";
      cookies = clear_auth_cookies;
    })

  unfoldable pub forgot_password : Text → Action Response
  forgot_password email = do
    r ← Service.forgot_password email
    pure (plain 200 (reset_instruction r))

  unfoldable pub reset_password : ResetPasswordDto → Action Response
  reset_password payload = do
    Service.reset_password payload.token payload.new_password
    pure (plain 200 (message "Password has been reset successfully"))

  unfoldable pub oauth_redirect : Text → Action Response
  oauth_redirect provider = do
    redirect_url ← Service.get_oauth_redirect_url provider
    pure (plain 302 (to_provider redirect_url))

  unfoldable pub oauth_callback : Text → Text → Text → Action Response
  unfolding with_cookies
  oauth_callback provider code state = do
    result ← Service.handle_oauth_callback provider code state
    with_cookies 302 (to_frontend env.settings.frontend_redirect_url) result
