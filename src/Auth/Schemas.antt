-- ===== src/Auth/Schemas.antt =====
-- App/modules/auth/schemas.py: the validation of the requests; `none` is a validation error.
use fastapi_newyear.Base.{
  ℕ, Bool, false, ◌&&◌, ◌||◌, Option, none, some, [], ◌∷◌, Text, length, leb, if◌then◌else◌,
}
use fastapi_newyear.Env.{Env}

-- `[A-Za-zА-Яа-я]`: the Latin letters and the Cyrillic ones from U+0410 to U+044F.
is_letter : ℕ → Bool
is_letter c = leb b'A' c && leb c b'Z' || leb b'a' c && leb c b'z' || leb 1040 c && leb c 1103

-- `re.search` of one character.
some_char : (ℕ → Bool) → Text → Bool
some_char p [] = false
some_char p (c ∷ s) = p c || some_char p s

pub record Credentials : Type 0 where
  pub email : Text
  pub password : Text

pub record ResetPasswordDto : Type 0 where
  pub token : Text
  pub new_password : Text

module _ ⦃env : Env⦄ where
  unfoldable pub validate_password_strength : Text → Bool
  unfolding some_char is_letter
  validate_password_strength password =
      leb 8 (length password) && some_char is_letter password && some_char env.is_decimal password

  unfoldable pub password_length : Text → Bool
  password_length password = leb 8 (length password) && leb (length password) 128

  -- `RegisterDTO`: the address as `EmailStr` normalises it.
  unfoldable pub register_request : Text → Text → Option Credentials
  register_request email password = elim (env.email_str email) [
    | none ↦ none
    | some e ↦
        if password_length password && validate_password_strength password
        then some (record { email = e; password = password })
        else none
  ]

  -- `LoginDTO` asks for the length alone.
  unfoldable pub login_request : Text → Text → Option Credentials
  login_request email password = elim (env.email_str email) [
    | none ↦ none
    | some e ↦
        if password_length password then some (record { email = e; password = password }) else none
  ]

  unfoldable pub forgot_password_request : Text → Option Text
  forgot_password_request email = env.email_str email

  unfoldable pub reset_password_request : Text → Text → Option ResetPasswordDto
  reset_password_request token new_password =
      if leb 20 (length token)
        && leb (length token) 512
        && password_length new_password
        && validate_password_strength new_password
      then some (record { token = token; new_password = new_password })
      else none
