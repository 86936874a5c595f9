-- ===== src/Web/Answers.antt =====
-- What the responses look like.
use fastapi_newyear.Base.{
  ℕ, ◌≡◌, ◌≤◌, refl, ◌⊎◌, inl, inr, Bool, true, ◌||◌, ◌==◌, [], Option, Text, arith,
}
use fastapi_newyear.Errors.{
  Exc, ok, status_code, Result-cases, app_exception, unauthorized, forbidden, not_found, conflict,
  validation_error, duplicate_key, broker_error, value_error, other_error,
}
use fastapi_newyear.Env.{Env}
use fastapi_newyear.World.{World, Action}
use fastapi_newyear.Auth.Sessions.{AuthSessionResultDto}
use fastapi_newyear.Auth.Dependencies.{AuthContext, get_current_auth}
use fastapi_newyear.Auth.Schemas.{Credentials}
use fastapi_newyear.Web.{Response, Body, respond, error_response}
use fastapi_newyear.Web.Routers.Auth as Accounts
use fastapi_newyear.Web.Routers.Items
use fastapi_newyear.Web.Routers.Files
use fastapi_newyear.Web.Health
use fastapi_newyear.Web.Requests.{
  Cookies, Request, PublicRequest, UserRequest, public, by_user, register, create_user, login,
  reset_password, refresh, forgot_password, oauth_redirect, oauth_callback, health, live, ready,
  info, whoami, logout, logout_all, get_profile, list_items, get_item, delete_item, download_file,
  delete_file, create_item, put_item, patch_item, upload_file, update_profile, handle_public,
  handle_user, handle, serve,
}

abbrev pub error_status : ℕ → Bool
error_status s = s == 400 || s == 401 || s == 403 || s == 404 || s == 409 || s == 500 || s == 503

-- A success or a redirect, or an error without cookies.
abbrev pub IsAnswer : Response → Type 0
IsAnswer r =
    ((200 ≤ r.status) × (r.status ≤ 302)) ⊎ ((error_status r.status ≡ true) × (r.cookies ≡ []))

module _ ⦃env : Env⦄ where
  -- What a function of a router says when it returns.
  abbrev Says : ℕ → Action Response → Type 0
  Says n m = (w : World) (r : Response) → (m w).0 ≡ ok r → r.status ≡ n

  with_cookies-Says :
      (n : ℕ) (body : Body) (s : AuthSessionResultDto) → Says n (Accounts.with_cookies n body s)
  unfolding Accounts.with_cookies
  with_cookies-Says n body s w r h = ground arith

  register-Says : (d : Credentials) → Says 201 (Accounts.register d)
  unfolding Accounts.register Accounts.with_cookies
  register-Says d w r h = ground arith

  refresh-Says : (cookie : Option Text) → Says 200 (Accounts.refresh_session cookie)
  unfolding Accounts.refresh_session Accounts.with_cookies
  refresh-Says cookie w r h = ground arith

  logout-Says : (auth : AuthContext) → Says 200 (Accounts.logout auth)
  unfolding Accounts.logout
  logout-Says auth w r h = ground arith

  ready-IsAnswer :
      (w : World) (r : Response)
      → (Health.ready w).0 ≡ ok r
      → ((r.status ≡ 200) ⊎ (r.status ≡ 503)) × (r.cookies ≡ [])
  unfolding Health.ready
  ready-IsAnswer w r h = ground arith

  public-IsAnswer :
      (c : Cookies) (q : PublicRequest) (w : World) (r : Response)
      → (handle_public c q w).0 ≡ ok r
      → IsAnswer r
  unfolding handle_public Accounts.register Accounts.create_user Accounts.login
      Accounts.reset_password Accounts.forgot_password Accounts.oauth_redirect
      Accounts.oauth_callback Accounts.with_cookies Health.health Health.live Health.get_info
  public-IsAnswer c (register email password) w r h = ground arith
  public-IsAnswer c (create_user email password) w r h = ground arith
  public-IsAnswer c (login email password) w r h = ground arith
  public-IsAnswer c (reset_password token password) w r h = ground arith
  public-IsAnswer c refresh w r h = ground (arith, refresh-Says c.refresh_token w r h)
  public-IsAnswer c (forgot_password email) w r h = ground arith
  public-IsAnswer c (oauth_redirect provider) w r h = ground arith
  public-IsAnswer c (oauth_callback provider code state) w r h = ground arith
  public-IsAnswer c health w r h = ground arith
  public-IsAnswer c live w r h = ground arith
  public-IsAnswer c ready w r h = ground (arith, ready-IsAnswer w r h)
  public-IsAnswer c info w r h = ground arith

  user-IsAnswer :
      (q : UserRequest) (auth : AuthContext) (w : World) (r : Response)
      → (handle_user q auth w).0 ≡ ok r
      → IsAnswer r
  unfolding handle_user Accounts.whoami Accounts.logout_all Files.get_profile Items.list_items
      Items.get_item Items.create_item Items.put_item Items.patch_item Items.delete_item
      Files.download_file Files.delete_file Files.upload_file Files.update_profile
  user-IsAnswer whoami auth w r h = ground arith
  user-IsAnswer logout auth w r h = ground (arith, logout-Says auth w r h)
  user-IsAnswer logout_all auth w r h = ground arith
  user-IsAnswer get_profile auth w r h = ground arith
  user-IsAnswer (list_items page limit) auth w r h = ground arith
  user-IsAnswer (get_item id) auth w r h = ground arith
  user-IsAnswer (delete_item id) auth w r h = ground arith
  user-IsAnswer (download_file id) auth w r h = ground arith
  user-IsAnswer (delete_file id) auth w r h = ground arith
  user-IsAnswer (create_item title description status) auth w r h = ground arith
  user-IsAnswer (put_item id title description status) auth w r h = ground arith
  user-IsAnswer (patch_item id d) auth w r h = ground arith
  user-IsAnswer (upload_file u) auth w r h = ground arith
  user-IsAnswer (update_profile d) auth w r h = ground arith

  handle-IsAnswer :
      (c : Cookies) (q : Request) (w : World) (r : Response) → (handle c q w).0 ≡ ok r → IsAnswer r
  unfolding handle
  handle-IsAnswer c (public q) w r h = public-IsAnswer c q w r h
  handle-IsAnswer c (by_user q) w r h = elim (Result-cases (get_current_auth c.access_token w).0) [
    | inl (auth, e) ↦ user-IsAnswer q auth (get_current_auth c.access_token w).1 r (ground arith)
    | inr (x, e) ↦ ground arith
  ]

  error-IsAnswer : (e : Exc) → IsAnswer (error_response e)
  unfolding error_response status_code
  error-IsAnswer (app_exception s) = inr (refl, refl)
  error-IsAnswer (unauthorized s) = inr (refl, refl)
  error-IsAnswer (forbidden s) = inr (refl, refl)
  error-IsAnswer (not_found s) = inr (refl, refl)
  error-IsAnswer (conflict s) = inr (refl, refl)
  error-IsAnswer validation_error = inr (refl, refl)
  error-IsAnswer duplicate_key = inr (refl, refl)
  error-IsAnswer broker_error = inr (refl, refl)
  error-IsAnswer value_error = inr (refl, refl)
  error-IsAnswer other_error = inr (refl, refl)

  -- Every response of a route is a success or a redirect, with a status from 200 to 302, or it has one of the statuses
  -- 400, 401, 403, 404, 409, 500 and 503 and sets no cookie: an error never changes the session that the browser holds.
  pub serve-IsAnswer : (c : Cookies) (q : Request) (w : World) → IsAnswer (serve c q w).0
  unfolding serve respond
  serve-IsAnswer c q w = elim (Result-cases (handle c q w).0) [
    | inl (r, e) ↦ rw e (handle-IsAnswer c q w r e)
    | inr (x, e) ↦ rw e (error-IsAnswer x)
  ]
