-- ===== src/Web/Requests.antt =====
-- The requests to the routes of app/main.py, its routers included, each with what its route declares: the
-- user of the access token (`Depends(get_current_auth)`, `Depends(get_current_user)`), which the
-- framework asks for first, and the validation of the payload and of the ids in the path.
use fastapi_newyear.Base.{ℕ, Option, none, some, Text}
use fastapi_newyear.Models.Items.{ItemStatus}
use fastapi_newyear.Env.{Env}
use fastapi_newyear.World.{World, Action, ◌>>=◌, pure}
use fastapi_newyear.Auth.Schemas.{
  register_request, login_request, forgot_password_request, reset_password_request,
}
use fastapi_newyear.Auth.Dependencies.{AuthContext, get_current_auth}
use fastapi_newyear.Items.Repository.{ItemData}
use fastapi_newyear.Items.Schemas.{item_create, item_update, item_patch, pagination}
use fastapi_newyear.Storage.Service.{Upload}
use fastapi_newyear.Storage.Profile.{ProfileUpdateDto, profile_update}
use fastapi_newyear.Web.{Response, validation_response, respond}
use fastapi_newyear.Web.Routers.Auth as Accounts
use fastapi_newyear.Web.Routers.Items
use fastapi_newyear.Web.Routers.Files
use fastapi_newyear.Web.Health

-- The cookies that the browser sends.
pub record Cookies : Type 0 where
  pub access_token : Option Text
  pub refresh_token : Option Text

-- The routes without `Depends(get_current_auth)`, with the fields of the body, or of path and query.
pub data PublicRequest : Type 0 where
  register create_user login reset_password : Text → Text → PublicRequest
  refresh : PublicRequest
  forgot_password oauth_redirect : Text → PublicRequest
  oauth_callback : Text → Text → Text → PublicRequest
  health live ready info : PublicRequest

-- The others. An id in a path is `none` where the text is no UUID.
pub data UserRequest : Type 0 where
  whoami logout logout_all get_profile : UserRequest
  list_items : ℕ → ℕ → UserRequest
  get_item delete_item download_file delete_file : Option ℕ → UserRequest
  create_item : Text → Text → Option ItemStatus → UserRequest
  put_item : Option ℕ → Text → Text → ItemStatus → UserRequest
  patch_item : Option ℕ → ItemData → UserRequest
  upload_file : Upload → UserRequest
  update_profile : ProfileUpdateDto → UserRequest

pub data Request : Type 0 where
  public : PublicRequest → Request
  by_user : UserRequest → Request

-- A request that fails its validation does not reach the function.
abbrev pub validated : {A : Type 0} → Option A → (A → Action Response) → Action Response
validated none f = pure validation_response
validated (some a) f = f a

abbrev pub validated_both :
    {A B : Type 0} → Option A → Option B → (A → B → Action Response) → Action Response
validated_both none b f = pure validation_response
validated_both (some a) none f = pure validation_response
validated_both (some a) (some b) f = f a b

module _ ⦃env : Env⦄ where
  unfoldable pub handle_public : Cookies → PublicRequest → Action Response
  handle_public c (register email password) =
      validated (register_request email password) Accounts.register
  handle_public c (create_user email password) =
      validated (register_request email password) Accounts.create_user
  handle_public c (login email password) = validated (login_request email password) Accounts.login
  handle_public c (reset_password token new_password) =
      validated (reset_password_request token new_password) Accounts.reset_password
  handle_public c refresh = Accounts.refresh_session c.refresh_token
  handle_public c (forgot_password email) =
      validated (forgot_password_request email) Accounts.forgot_password
  handle_public c (oauth_redirect provider) = Accounts.oauth_redirect provider
  handle_public c (oauth_callback provider code state) = Accounts.oauth_callback provider code state
  handle_public c health = Health.health
  handle_public c live = Health.live
  handle_public c ready = Health.ready
  handle_public c info = Health.get_info

  unfoldable pub handle_user : UserRequest → AuthContext → Action Response
  handle_user whoami auth = Accounts.whoami auth
  handle_user logout auth = Accounts.logout auth
  handle_user logout_all auth = Accounts.logout_all auth
  handle_user get_profile auth = Files.get_profile auth.user
  handle_user (list_items page limit) auth =
      validated (pagination page limit) (λ p. Items.list_items p auth.user)
  handle_user (get_item id) auth = validated id (λ i. Items.get_item i auth.user)
  handle_user (delete_item id) auth = validated id (λ i. Items.delete_item i auth.user)
  handle_user (download_file id) auth = validated id (λ i. Files.download_file i auth.user)
  handle_user (delete_file id) auth = validated id (λ i. Files.delete_file i auth.user)
  handle_user (create_item title description status) auth =
      validated (item_create title description status) (λ d. Items.create_item d auth.user)
  handle_user (put_item id title description status) auth =
      validated_both id (item_update title description status) (λ i d. Items.put_item i d auth.user)
  handle_user (patch_item id d) auth =
      validated_both id (item_patch d) (λ i d. Items.patch_item i d auth.user)
  handle_user (upload_file u) auth = Files.upload_file u auth.user
  handle_user (update_profile d) auth =
      validated (profile_update d) (λ d. Files.update_profile d auth.user)

  unfoldable pub handle : Cookies → Request → Action Response
  handle c (public r) = handle_public c r
  handle c (by_user r) = get_current_auth c.access_token >>= handle_user r

  unfoldable pub serve : Cookies → Request → World → Response × World
  serve c r = respond (handle c r)
