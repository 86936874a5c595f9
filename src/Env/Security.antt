-- ===== src/Env/Security.antt =====
-- PyJWT and bcrypt.
use fastapi_newyear.Base.{ℕ, ◌*◌, ◌≤◌, ◌<◌, ◌≡◌, ◌≢◌, Bool, true, Option, [], Text}
use fastapi_newyear.Models.Accounts.{TokenType}
use fastapi_newyear.Config.{second}

-- The claims of a token. An id claim is missing, is a text that is no UUID, or is a UUID; `typ` is
-- one of the two types, or anything else.
pub record Payload : Type 0 where
  pub sub : Option (Option ℕ)
  pub sid : Option (Option ℕ)
  pub jti : Option (Option ℕ)
  pub typ : Option TokenType
  pub iat : ℕ
  pub exp : ℕ

-- `ExpiredSignatureError` and the other `InvalidTokenError`s are cases.
pub data Decoded : Type 0 where
  decoded : Payload → Decoded
  expired invalid : Decoded

pub record Jwt : Type 0 where
  pub encode : Payload → Text → Text
  -- At a time, by a secret.
  pub decode : ℕ → Text → Text → Decoded
  -- A token has three parts, which are joined by dots.
  pub encode_nonempty : (p : Payload) (secret : Text) → encode p secret ≢ []
  pub decode-encode :
      (now : ℕ) (p : Payload) (secret : Text)
      → p.iat * second ≤ now
      → now < p.exp * second
      → decode now (encode p secret) secret ≡ decoded p
  pub decode_late :
      (now : ℕ) (p : Payload) (secret : Text)
      → p.iat * second ≤ now
      → p.exp * second ≤ now
      → decode now (encode p secret) secret ≡ expired
  pub decode_forged :
      (now : ℕ) (p : Payload) (secret other : Text)
      → secret ≢ other
      → decode now (encode p secret) other ≡ invalid

pub record Bcrypt : Type 0 where
  -- `hashpw` with the n-th salt of `gensalt`.
  pub hashpw : ℕ → Text → Text
  pub checkpw : Text → Text → Bool
  pub checkpw-hashpw : (n : ℕ) (password : Text) → checkpw password (hashpw n password) ≡ true
  pub hashpw_nonempty : (n : ℕ) (password : Text) → hashpw n password ≢ []
