-- ===== src/Config.antt =====
-- App/common/config.py: the settings that the modelled code reads, and the durations among them.
-- A time span is a number of microseconds, as in `datetime.timedelta`.
pub mod Durations
use fastapi_newyear.Base.{
  List, ℕ, ◌+◌, ◌-◌, ◌*◌, ◌≡◌, refl, Bool, true, false, not, text_eq, ◌||◌, ◌&&◌, [], ◌∷◌, Option,
  none, some, Text, codes, lower, strip, leb, ◌==◌, if◌then◌else◌,
}
use fastapi_newyear.Errors.{Result, ok, err, value_error, other_error}

abbrev pub second : ℕ
second = 1000000

abbrev pub minute : ℕ
minute = 60 * second

is_digit : ℕ → Bool
is_digit c = leb b'0' c && leb c b'9'

-- The unit and its length.
unfoldable unit_length : ℕ → Option ℕ
unit_length c =
    if c == b'm'
    then some minute
    else if c == b'h'
    then some (60 * minute)
    else if c == b'd'
    then some (24 * 60 * minute)
    else none

-- The match of `(\d+)([mhd])` from the second character on: `n` is what the digits so far say.
unfoldable amount_unit : ℕ → Text → Option ℕ
unfolding is_digit unit_length
amount_unit n [] = none
amount_unit n (c ∷ []) = elim (unit_length c) [ none ↦ none | some u ↦ some (n * u) ]
amount_unit n (c ∷ d ∷ s) =
    let rest = amount_unit (n * 10 + (c - b'0')) (d ∷ s) in if is_digit c then rest else none

-- `re.fullmatch`: at least one digit, and a unit at the end.
unfoldable duration_match : Text → Option ℕ
unfolding amount_unit
duration_match [] = none
duration_match (c ∷ s) = if is_digit c then amount_unit (c - b'0') s else none

unfoldable pub parse_duration : Text → Result ℕ
unfolding duration_match
parse_duration value = elim (duration_match (strip (lower value))) [
  | none ↦ err value_error
  | some t ↦ ok t
]

pub record Settings : Type 0 where
  pub redis_key_prefix : Text
  pub items_cache_ttl_seconds : ℕ
  pub user_profile_cache_ttl_seconds : ℕ
  pub file_meta_cache_ttl_seconds : ℕ
  pub rabbitmq_exchange : Text
  pub rabbitmq_dlx : Text
  pub queue_user_registered : Text
  pub queue_user_registered_dlq : Text
  pub rabbitmq_max_retries : ℕ
  pub rabbitmq_consumer_max_failures : ℕ
  pub jwt_access_secret : Text
  pub jwt_refresh_secret : Text
  pub jwt_access_expiration : Text
  pub jwt_refresh_expiration : Text
  pub cookie_secure : Bool
  pub cookie_samesite : Text
  pub cookie_domain : Option Text
  pub frontend_redirect_url : Text
  pub app_env : Text
  pub swagger_enabled : Bool
  pub smtp_host : Text
  pub smtp_port : ℕ
  pub smtp_from : Text
  pub smtp_user : Text
  pub smtp_pass : Text
  pub yandex_client_id : Text
  pub yandex_client_secret : Text
  pub reset_password_expire_minutes : ℕ
  pub oauth_state_expire_minutes : ℕ
  pub auth_debug_return_reset_token : Bool
  pub minio_bucket : Text
  pub max_upload_size_bytes : ℕ
  pub avatar_allowed_mime_types : Text

unfoldable pub access_ttl : Settings → Result ℕ
unfolding parse_duration
access_ttl s = parse_duration s.jwt_access_expiration

unfoldable pub refresh_ttl : Settings → Result ℕ
unfolding parse_duration
refresh_ttl s = parse_duration s.jwt_refresh_expiration

unfoldable pub reset_password_ttl : Settings → ℕ
reset_password_ttl s = s.reset_password_expire_minutes * minute

unfoldable pub oauth_state_ttl : Settings → ℕ
oauth_state_ttl s = s.oauth_state_expire_minutes * minute

parse_duration_tests :
    (parse_duration (codes "15m") ≡ ok (15 * minute))
    × (parse_duration (codes " 7D ") ≡ ok (7 * 24 * 60 * minute))
    × (parse_duration (codes "m") ≡ err value_error)
    × (parse_duration (codes "15") ≡ err value_error)
unfolding parse_duration strip lower
parse_duration_tests = (refl, refl, refl, refl)

-- `split(",")`.
split_commas : Text → List Text
split_commas [] = [] ∷ []
split_commas (c ∷ s) = put (split_commas s)
  where
    put : List Text → List Text
    put [] = (c ∷ []) ∷ []
    put (t ∷ ts) = if c == b',' then [] ∷ t ∷ ts else (c ∷ t) ∷ ts

normal_names : List Text → List Text
normal_names [] = []
normal_names (t ∷ ts) =
    let rest = normal_names ts in elim (strip t) [ [] ↦ rest | c ∷ s ↦ lower (c ∷ s) ∷ rest ]

unfoldable pub allowed_mime_types : Settings → List Text
unfolding split_commas normal_names
allowed_mime_types s = normal_names (split_commas s.avatar_allowed_mime_types)

allowed_mime_types_test :
    normal_names (split_commas (codes "image/png, Image/JPEG,,"))
    ≡ codes "image/png" ∷ codes "image/jpeg" ∷ []
unfolding normal_names split_commas strip lower
allowed_mime_types_test = refl

unfoldable pub docs_enabled : Settings → Bool
docs_enabled s =
    (text_eq (lower s.app_env) (codes "development") || text_eq (lower s.app_env) (codes "local"))
    && s.swagger_enabled

abbrev same_bool : Bool → Bool → Bool
same_bool true b = b
same_bool false b = not b

-- `bool` of a text.
abbrev given : Text → Bool
given [] = false
given (c ∷ s) = true

-- The `RuntimeError` lists what is missing; its text is not modelled.
unfoldable pub validate_smtp_config : Settings → Result (Unit {0})
validate_smtp_config s =
    if given s.smtp_host
      && not (s.smtp_port == 0)
      && given s.smtp_from
      && same_bool (given s.smtp_user) (given s.smtp_pass)
    then ok tt
    else err other_error
