-- ===== src/Web.antt =====
-- The responses of the application, and App/common/web/error_handlers.py, which makes one of each
-- exception.
pub mod Routers
pub mod Requests
pub mod Gate
pub mod Answers
pub mod Health
use fastapi_newyear.Base.{ℕ, ◌≡◌, Bool, Option, List, [], String, Text}
use fastapi_newyear.Errors.{
  Exc, Result, ok, err, status_code, app_exception, unauthorized, forbidden, not_found, conflict,
}
use fastapi_newyear.Models.Accounts.{UserPublicDto}
use fastapi_newyear.Models.Items.{ItemResponseDto, ItemListResponseDto}
use fastapi_newyear.World.{World, Action}
use fastapi_newyear.Common.Cookies.{CookieCall}
use fastapi_newyear.Auth.Service.{ForgotPasswordResponseDto}
use fastapi_newyear.Auth.Yandex.{AuthorizeUrl}
use fastapi_newyear.Storage.Profile.{FileResponseDto, ProfileResponseDto}

-- The headers of a download: the type, the quoted name and the length.
pub record Download : Type 0 where
  pub media_type : Text
  pub disposition_name : Text
  pub content_length : ℕ

-- The checks of the readiness probe by their "status": whether it is "ok". The details are not
-- modelled.
pub record Checks : Type 0 where
  pub mongo : Bool
  pub redis : Bool
  pub rabbitmq : Bool
  pub minio : Bool

-- The JSON of a response, the target of a redirect, or the stream of a file.
pub data Body : Type 0 where
  empty invalid_request : Body
  detail message : String → Body
  user : UserPublicDto → Body
  reset_instruction : ForgotPasswordResponseDto → Body
  item : ItemResponseDto → Body
  items : ItemListResponseDto → Body
  file : FileResponseDto → Body
  profile : ProfileResponseDto → Body
  stream : Download → Body
  to_provider : AuthorizeUrl → Body
  to_frontend : Text → Body
  alive : Body
  -- Whether the "status" is "ready", and the checks.
  readiness : Bool → Checks → Body

pub record Response : Type 0 where
  pub status : ℕ
  pub body : Body
  pub cookies : List CookieCall

-- A response without cookies.
abbrev pub plain : ℕ → Body → Response
plain status body = record { status = status; body = body; cookies = [] }

-- The detail that `app_exception_handler` writes; all other exceptions have the one of
-- `internal_exception_handler`.
detail_of : Exc → String
detail_of (app_exception s) = s
detail_of (unauthorized s) = s
detail_of (forbidden s) = s
detail_of (not_found s) = s
detail_of (conflict s) = s
detail_of _ = "Internal Server Error"

-- The handlers build a new response: cookies that were set before the exception are lost.
unfoldable pub error_response : Exc → Response
unfolding detail_of
error_response e = plain (status_code e) (detail (detail_of e))

-- `validation_exception_handler`; the list of the errors is not modelled.
abbrev pub validation_response : Response
validation_response = plain 400 invalid_request

-- What the client gets of a handler.
abbrev pub answer : Result Response → Response
answer (ok r) = r
answer (err e) = error_response e

unfoldable pub respond : Action Response → World → Response × World
respond m w = let (r, w') = m w in (answer r, w')
