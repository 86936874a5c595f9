-- ===== src/Models/Accounts.antt =====
-- App/modules/users/model.py, users/schemas.py, auth/token_model.py, auth/reset_token_model.py and
-- auth/oauth_state_model.py.
use fastapi_newyear.Base.{ℕ, Bool, true, false, Option, Text}

pub record User : Type 0 where
  pub id : ℕ
  pub email : Text
  pub phone : Option Text
  pub display_name : Option Text
  pub bio : Option Text
  pub avatar_file_id : Option ℕ
  pub password_hash : Option Text
  pub password_salt : Option Text
  pub yandex_id : Option Text
  pub created_at : ℕ
  pub updated_at : Option ℕ
  pub deleted_at : Option ℕ

pub record UserPublicDto : Type 0 where
  pub id : ℕ
  pub email : Text
  pub phone : Option Text
  pub display_name : Option Text
  pub bio : Option Text
  pub avatar_file_id : Option ℕ
  pub created_at : ℕ

-- The texts "access" and "refresh".
pub data TokenType : Type 0 where
  access refresh : TokenType

abbrev pub same_type : TokenType → TokenType → Bool
same_type access access = true
same_type refresh refresh = true
same_type _ _ = false

pub record SessionToken : Type 0 where
  pub id : ℕ
  pub session_id : ℕ
  pub user_id : ℕ
  pub token_type : TokenType
  pub token_hash : ℕ
  pub expires_at : ℕ
  pub is_revoked : Bool
  pub created_at : ℕ
  pub revoked_at : Option ℕ

pub record PasswordResetToken : Type 0 where
  pub id : ℕ
  pub user_id : ℕ
  pub token_hash : ℕ
  pub expires_at : ℕ
  pub is_used : Bool
  pub created_at : ℕ

pub record OAuthState : Type 0 where
  pub id : ℕ
  pub provider : Text
  pub state_hash : ℕ
  pub expires_at : ℕ
  pub is_used : Bool
  pub created_at : ℕ
