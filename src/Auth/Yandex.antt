-- ===== src/Auth/Yandex.antt =====
-- App/modules/auth/yandex_oauth.py: `YandexOAuthClient`, over the answers of the provider.
use fastapi_newyear.Base.{
  Bool, true, false, ◌||◌, Option, none, some, [], ◌∷◌, Text, leb, if◌then◌else◌,
}
use fastapi_newyear.Errors.{Result, ok, err, app_exception, unauthorized, other_error}
use fastapi_newyear.Env.{Env, TokenResponse, ProfileResponse}

-- The query of the URL, without its constant fields.
pub record AuthorizeUrl : Type 0 where
  pub client_id : Text
  pub state : Text

abbrev is_empty : Text → Bool
is_empty [] = true
is_empty (c ∷ s) = false

-- `not data.get("…")`.
abbrev required : Option Text → Option Text
required none = none
required (some []) = none
required (some (c ∷ s)) = some (c ∷ s)

abbrev or_error : Option Text → Result Text → Result Text
or_error none r = r
or_error (some s) r = ok s

token_of : Option TokenResponse → Result Text
token_of none = err other_error
token_of (some r) =
    if leb 400 r.status
    then err (unauthorized "Failed to exchange OAuth code")
    else or_error r.access_token (err (unauthorized "Provider access token not received"))

id_and_email : Option Text → Option Text → Result (Text × Text)
id_and_email none email = err (unauthorized "Yandex user ID not found in profile")
id_and_email (some id) none = err (unauthorized "Yandex profile did not return email")
id_and_email (some id) (some email) = ok (id, email)

profile_of : Option ProfileResponse → Result (Text × Text)
unfolding id_and_email
profile_of none = err other_error
profile_of (some r) =
    if leb 400 r.status
    then err (unauthorized "Failed to fetch Yandex user info")
    else id_and_email (required r.id) (required r.default_email)

module _ ⦃env : Env⦄ where
  unfoldable pub build_authorize_url : Text → Result AuthorizeUrl
  build_authorize_url state =
      if is_empty env.settings.yandex_client_id
      then err (app_exception "Yandex OAuth is not configured")
      else ok (record { client_id = env.settings.yandex_client_id; state = state })

  -- The access token of the answer.
  unfoldable pub exchange_code : Text → Result Text
  unfolding token_of
  exchange_code code =
      if is_empty env.settings.yandex_client_id || is_empty env.settings.yandex_client_secret
      then err (app_exception "Yandex OAuth is not configured")
      else token_of (env.post_token code)

  -- The id and the address of the profile.
  unfoldable pub fetch_user_info : Text → Result (Text × Text)
  unfolding profile_of
  fetch_user_info provider_access_token = profile_of (env.get_profile provider_access_token)
