-- ===== src/Env.antt =====
-- What the program calls and does not implement: MongoDB, Redis, the JWT and bcrypt packages, the
-- validation of addresses, and the sources of randomness. Each is a record of operations, with the
-- documented behaviour that the theorems rely on.
mod Database
mod KeyStore
mod Security
pub mod Indexes
pub use Database.{Mongo, Descending}
pub use KeyStore.{Redis}
pub use Security.{Jwt, Bcrypt, Payload, Decoded, decoded, expired, invalid}
use fastapi_newyear.Base.{ℕ, ◌≢◌, [], Bool, Option, Text}
use fastapi_newyear.Config.{Settings}

-- A response of the OAuth provider: its status, and what the program reads of its body.
pub record TokenResponse : Type 0 where
  pub status : ℕ
  pub access_token : Option Text

pub record ProfileResponse : Type 0 where
  pub status : ℕ
  pub id : Option Text
  pub default_email : Option Text

-- The codes of MinIO's `S3Error` that the program tells apart.
pub data S3Error : Type 0 where
  no_such_bucket no_such_key other_s3_error : S3Error

pub record Env : Type 1 where
  pub settings : Settings
  pub mongo : Mongo
  -- Whether MongoDB answers the command `ping` at a time.
  pub mongo_answers : ℕ → Bool
  pub redis : Redis
  -- Whether the n-th call of the Redis client raises `RedisError`.
  pub redis_fails : ℕ → Bool
  pub jwt : Jwt
  pub bcrypt : Bcrypt
  -- The n-th value that `uuid.uuid4`, `secrets.token_urlsafe` or `secrets.token_hex` returns.
  pub uuid4 : ℕ → ℕ
  pub token_urlsafe : ℕ → Text
  pub token_hex : ℕ → Text
  -- How long it takes from the making of a session's tokens, behind so many random values, until the
  -- id of its access token is stored.
  pub elapsed : ℕ → ℕ
  pub token_hex_nonempty : (n : ℕ) → token_hex n ≢ []
  -- `hashlib.sha256(…).hexdigest()`, as a number.
  pub sha256 : Text → ℕ
  -- The validation of pydantic's `EmailStr`: the normalised address.
  pub email_str : Text → Option Text
  -- The provider's answers to a code and to its access token; `none` is an error of the connection.
  pub post_token : Text → Option TokenResponse
  pub get_profile : Text → Option ProfileResponse
  -- Whether the n-th e-mail goes out, and whether the call that sends it raises.
  pub mail_accepted : ℕ → Bool
  pub mail_raises : ℕ → Bool
  -- The error that the n-th call of the MinIO client raises, if it raises.
  pub minio_error : ℕ → Option S3Error
  -- `str` of a UUID.
  pub uuid_text : ℕ → Text
  -- `urllib.parse.quote`.
  pub quote : Text → Text
  -- What `\d` matches in a text: the decimal digits of Unicode.
  pub is_decimal : ℕ → Bool
