-- ===== src/Common/Cookies.antt =====
-- App/common/security/cookies.py: what the application asks the framework to do with the cookies of
-- a response, in order.
use fastapi_newyear.Base.{Bool, true, Option, none, some, List, [], ◌∷◌, ℕ, ◌/◌, Text, codes}
use fastapi_newyear.Errors.{Result, ok, err}
use fastapi_newyear.Config.{second, access_ttl, refresh_ttl}
use fastapi_newyear.Env.{Env}

abbrev pub access_cookie_name : Text
access_cookie_name = codes "access_token"

abbrev pub refresh_cookie_name : Text
refresh_cookie_name = codes "refresh_token"

-- The keyword arguments of `set_cookie`, without the key, the value and the age.
pub record CookieOptions : Type 0 where
  pub httponly : Bool
  pub secure : Bool
  pub samesite : Text
  pub path : Text
  pub domain : Option Text

-- `response.set_cookie` with an age in seconds, and `response.delete_cookie` with path and domain.
pub data CookieCall : Type 0 where
  set_cookie : Text → Text → ℕ → CookieOptions → CookieCall
  delete_cookie : Text → Text → Option Text → CookieCall

-- `if settings.COOKIE_DOMAIN`: an empty domain counts as none.
abbrev domain_of : Option Text → Option Text
domain_of none = none
domain_of (some []) = none
domain_of (some (c ∷ s)) = some (c ∷ s)

module _ ⦃env : Env⦄ where
  cookie_kwargs : CookieOptions
  cookie_kwargs = record {
    httponly = true;
    secure = env.settings.cookie_secure;
    samesite = env.settings.cookie_samesite;
    path = codes "/";
    domain = domain_of env.settings.cookie_domain;
  }

  calls_of : Text → Text → Result ℕ → Result ℕ → Result (List CookieCall)
  unfolding cookie_kwargs
  calls_of access_token refresh_token (err e) r = err e
  calls_of access_token refresh_token (ok a) (err e) = err e
  calls_of access_token refresh_token (ok a) (ok b) = ok (
      set_cookie access_cookie_name access_token (a / second) cookie_kwargs
      ∷ set_cookie refresh_cookie_name refresh_token (b / second) cookie_kwargs
      ∷ [])

  -- The ages are parsed from the settings again.
  unfoldable pub set_auth_cookies : Text → Text → Result (List CookieCall)
  unfolding calls_of
  set_auth_cookies access_token refresh_token =
      calls_of access_token refresh_token (access_ttl env.settings) (refresh_ttl env.settings)

  unfoldable pub clear_auth_cookies : List CookieCall
  clear_auth_cookies =
      delete_cookie access_cookie_name (codes "/") (domain_of env.settings.cookie_domain)
      ∷ delete_cookie refresh_cookie_name (codes "/") (domain_of env.settings.cookie_domain)
      ∷ []
