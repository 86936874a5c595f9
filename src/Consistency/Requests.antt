-- ===== src/Consistency/Requests.antt =====
-- Every request keeps the collections consistent, however it ends.
use fastapi_newyear.Base.{ℕ, refl, Option, none, some, Text}
use fastapi_newyear.Errors.{unauthorized}
use fastapi_newyear.Env.{Env}
use fastapi_newyear.World.{World, Action, ◌>>=◌}
use fastapi_newyear.World.Keeps.{Keeps, bind, reads, pure_keeps, lift_keeps, or_raise_keeps}
use fastapi_newyear.Common.Cookies.{set_auth_cookies}
use fastapi_newyear.Users.Service as Users
use fastapi_newyear.Auth.Sessions.{AuthSessionResultDto}
use fastapi_newyear.Auth.Service.{nonempty, claim_id}
use fastapi_newyear.Auth.Dependencies.{AuthContext, get_current_auth}
use fastapi_newyear.Auth.Schemas.{
  register_request, login_request, forgot_password_request, reset_password_request,
}
use fastapi_newyear.Items.Schemas.{item_create, item_update, item_patch, pagination}
use fastapi_newyear.Storage.Profile.{profile_update}
use fastapi_newyear.Web.{Response, Body, user, to_frontend, validation_response, respond}
use fastapi_newyear.Web.Routers.Auth as Accounts
use fastapi_newyear.Web.Routers.Items
use fastapi_newyear.Web.Routers.Files
use fastapi_newyear.Web.Health
use fastapi_newyear.Web.Requests.{
  Cookies, Request, PublicRequest, UserRequest, public, by_user, register, create_user, login,
  reset_password, refresh, forgot_password, oauth_redirect, oauth_callback, health, live, ready,
  info, whoami, logout, logout_all, get_profile, list_items, get_item, delete_item, download_file,
  delete_file, create_item, put_item, patch_item, upload_file, update_profile, validated,
  validated_both, handle_public, handle_user, handle, serve,
}
use fastapi_newyear.Auth.Dependencies.Frame.{get_current_auth_frame}
use fastapi_newyear.Consistency.Keys.{IsConsistent}
use fastapi_newyear.Consistency.Writes.{account_writes, file_writes}
use fastapi_newyear.Consistency.Sessions
use fastapi_newyear.Consistency.Recovery
use fastapi_newyear.Consistency.Files as Storage
use fastapi_newyear.Consistency.Items as Holidays

module _ ⦃env : Env⦄ where
  abbrev KeepsAll : {A : Type 0} → Action A → Type 0
  KeepsAll m = Keeps IsConsistent m

  with_cookies_keeps :
      (status : ℕ) (body : Body) (r : AuthSessionResultDto)
      → KeepsAll (Accounts.with_cookies status body r)
  unfolding Accounts.with_cookies
  with_cookies_keeps status body r =
      bind (lift_keeps (set_auth_cookies r.access_token r.refresh_token)) (λ c. pure_keeps _)

  validated_keeps :
      {A : Type 0} (o : Option A) {f : A → Action Response}
      → ((a : A) → KeepsAll (f a))
      → KeepsAll (validated o f)
  validated_keeps none hf = pure_keeps validation_response
  validated_keeps (some a) hf = hf a

  validated_both_keeps :
      {A B : Type 0} (o : Option A) (p : Option B) {f : A → B → Action Response}
      → ((a : A) (b : B) → KeepsAll (f a b))
      → KeepsAll (validated_both o p f)
  validated_both_keeps none p hf = pure_keeps validation_response
  validated_both_keeps (some a) none hf = pure_keeps validation_response
  validated_both_keeps (some a) (some b) hf = hf a b

  session_keeps :
      (status : ℕ) (body : AuthSessionResultDto → Body) (m : Action AuthSessionResultDto)
      → KeepsAll m
      → KeepsAll (m >>= λ r. Accounts.with_cookies status (body r) r)
  session_keeps status body m hm = bind hm (λ r. with_cookies_keeps status (body r) r)

  refresh_keeps : (cookie : Option Text) → KeepsAll (Accounts.refresh_session cookie)
  unfolding Accounts.refresh_session
  refresh_keeps cookie =
      bind (or_raise_keeps (nonempty cookie) (unauthorized "Missing refresh token")) (λ token.
        session_keeps 200 (λ r. user r.user) _
          (Sessions.refresh_session_keeps IsConsistent account_writes token))

  logout_keeps : (auth : AuthContext) → KeepsAll (Accounts.logout auth)
  unfolding Accounts.logout
  logout_keeps auth =
      bind
        (or_raise_keeps (claim_id auth.payload.sid) (unauthorized "Invalid access token payload"))
        (λ sid.
          bind (Sessions.logout_current_session_keeps IsConsistent account_writes sid auth.user.id)
            (λ _. pure_keeps _))

  ready_keeps : KeepsAll Health.ready
  unfolding Health.ready
  ready_keeps = reads (λ w. refl)

  public_keeps : (c : Cookies) (r : PublicRequest) → KeepsAll (handle_public c r)
  unfolding handle_public Accounts.register Accounts.create_user Accounts.login
      Accounts.reset_password Accounts.forgot_password Accounts.oauth_redirect
      Accounts.oauth_callback Health.health Health.live Health.get_info
  public_keeps c (register email password) = validated_keeps (register_request email password) (λ d.
      session_keeps 201 (λ r. user r.user) _
        (Sessions.register_keeps IsConsistent account_writes d.email d.password))
  public_keeps c (create_user email password) =
      validated_keeps (register_request email password) (λ d.
        session_keeps 201 (λ r. user r.user) _
          (Sessions.register_keeps IsConsistent account_writes d.email d.password))
  public_keeps c (login email password) = validated_keeps (login_request email password) (λ d.
      session_keeps 200 (λ r. user r.user) _
        (Sessions.login_keeps IsConsistent account_writes d.email d.password))
  public_keeps c (reset_password token password) =
      validated_keeps (reset_password_request token password) (λ d.
        bind (Recovery.reset_password_keeps IsConsistent account_writes d.token d.new_password)
          (λ _. pure_keeps _))
  public_keeps c refresh = refresh_keeps c.refresh_token
  public_keeps c (forgot_password email) =
      validated_keeps (forgot_password_request email) (λ e.
        bind (Recovery.forgot_password_keeps IsConsistent account_writes e) (λ r. pure_keeps _))
  public_keeps c (oauth_redirect provider) =
      bind (Recovery.get_oauth_redirect_url_keeps IsConsistent account_writes provider)
        (λ url. pure_keeps _)
  public_keeps c (oauth_callback provider code state) =
      session_keeps 302 (λ r. to_frontend env.settings.frontend_redirect_url) _
        (Recovery.handle_oauth_callback_keeps IsConsistent account_writes provider code state)
  public_keeps c health = reads (λ w. refl)
  public_keeps c live = reads (λ w. refl)
  public_keeps c ready = ready_keeps
  public_keeps c info = reads (λ w. refl)

  user_keeps : (r : UserRequest) (auth : AuthContext) → KeepsAll (handle_user r auth)
  unfolding handle_user Accounts.whoami Accounts.logout_all Files.get_profile Items.list_items
      Items.get_item Items.create_item Items.put_item Items.patch_item Items.delete_item
      Files.download_file Files.delete_file Files.upload_file Files.update_profile
  user_keeps whoami auth = bind (lift_keeps (Users.public_profile auth.user)) (λ p. pure_keeps _)
  user_keeps logout auth = logout_keeps auth
  user_keeps logout_all auth =
      bind (Sessions.logout_all_sessions_keeps IsConsistent account_writes auth.user.id)
        (λ _. pure_keeps _)
  user_keeps get_profile auth =
      bind (Storage.get_profile_keeps IsConsistent file_writes account_writes auth.user.id)
        (λ r. pure_keeps _)
  user_keeps (list_items page limit) auth =
      validated_keeps (pagination page limit)
        (λ p. bind (Holidays.list_items_keeps p auth.user.id) (λ r. pure_keeps _))
  user_keeps (get_item id) auth =
      validated_keeps id (λ i. bind (Holidays.get_item_keeps i auth.user.id) (λ r. pure_keeps _))
  user_keeps (delete_item id) auth =
      validated_keeps id (λ i. bind (Holidays.delete_item_keeps i auth.user.id) (λ r. pure_keeps _))
  user_keeps (download_file id) auth = validated_keeps id (λ i.
      bind (Storage.get_owned_file_keeps IsConsistent file_writes i auth.user.id) (λ f.
        bind (Storage.get_file_stream_keeps IsConsistent file_writes f.object_key)
          (λ _. pure_keeps _)))
  user_keeps (delete_file id) auth = validated_keeps id (λ i.
      bind (Storage.delete_owned_file_keeps IsConsistent file_writes i auth.user.id)
        (λ _. pure_keeps _))
  user_keeps (create_item title description status) auth =
      validated_keeps (item_create title description status)
        (λ d. bind (Holidays.create_item_keeps d auth.user.id) (λ r. pure_keeps _))
  user_keeps (put_item id title description status) auth =
      validated_both_keeps id (item_update title description status)
        (λ i d. bind (Holidays.put_item_keeps i d auth.user.id) (λ r. pure_keeps _))
  user_keeps (patch_item id d) auth =
      validated_both_keeps id (item_patch d)
        (λ i d. bind (Holidays.patch_item_keeps i d auth.user.id) (λ r. pure_keeps _))
  user_keeps (upload_file u) auth =
      bind (Storage.upload_user_file_keeps IsConsistent file_writes u auth.user.id)
        (λ f. pure_keeps _)
  user_keeps (update_profile d) auth = validated_keeps (profile_update d) (λ d.
      bind
        (Storage.update_profile_response_keeps IsConsistent file_writes account_writes d auth.user)
        (λ r. pure_keeps _))

  auth_keeps : (cookie : Option Text) → KeepsAll (get_current_auth cookie)
  auth_keeps cookie = reads (λ w. get_current_auth_frame cookie w)

  handle_keeps : (c : Cookies) (r : Request) → KeepsAll (handle c r)
  unfolding handle
  handle_keeps c (public r) = public_keeps c r
  handle_keeps c (by_user r) = bind (auth_keeps c.access_token) (user_keeps r)

  -- Every request leaves consistent collections as consistent as they were, whether it is answered, refused or ends in
  -- an error after some of its writes.
  pub serve-IsConsistent :
      (c : Cookies) (r : Request) (w : World) → IsConsistent w.db → IsConsistent (serve c r w).1.db
  unfolding serve respond
  serve-IsConsistent c r w h = (handle_keeps c r).after w h
