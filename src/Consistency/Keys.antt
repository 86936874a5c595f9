-- ===== src/Consistency/Keys.antt =====
-- No two documents of a collection share a key of a unique index, and no user has two active items
-- of one title: the writes of the repositories keep that.
use fastapi_newyear.Base.{
  ℕ, Text, ◌≡◌, refl, ◌==◌, List, IsUnique, none, some, Option, arith, text_eq_sym,
}
use fastapi_newyear.Models.Accounts.{User, SessionToken, PasswordResetToken, OAuthState}
use fastapi_newyear.Models.Files.{FileRecord}
use fastapi_newyear.World.{Db}
use fastapi_newyear.Users.Repository as Users
use fastapi_newyear.Users.Repository.{NewUser}
use fastapi_newyear.Auth.Tokens
use fastapi_newyear.Auth.Resets
use fastapi_newyear.Auth.States
use fastapi_newyear.Storage.Repository as Files
use fastapi_newyear.Storage.Repository.{NewFile}
use fastapi_newyear.Items.Titles.{IsWellFormed}

pub record IsConsistent (d : Db) : Type 0 where
  pub users : IsUnique Users.same_keys d.users
  pub session_tokens : IsUnique Tokens.same_keys d.session_tokens
  pub password_reset_tokens : IsUnique Resets.same_keys d.password_reset_tokens
  pub oauth_states : IsUnique States.same_keys d.oauth_states
  pub files : IsUnique Files.same_keys d.files
  pub items : IsWellFormed d.holiday_items

pub ==_sym : (a b : ℕ) → (a == b) ≡ (b == a)
==_sym a b = ground arith

both_sym : (a b : Option Text) → Users.both a b ≡ Users.both b a
both_sym none none = refl
both_sym none (some b) = refl
both_sym (some a) none = refl
both_sym (some a) (some b) = text_eq_sym a b

pub user_keys_sym : (a b : User) → Users.same_keys a b ≡ Users.same_keys b a
unfolding Users.same_keys
user_keys_sym a b =
    cc (==_sym a.id b.id, text_eq_sym a.email b.email, both_sym a.yandex_id b.yandex_id)

pub token_keys_sym : (a b : SessionToken) → Tokens.same_keys a b ≡ Tokens.same_keys b a
unfolding Tokens.same_keys
token_keys_sym a b = cc (==_sym a.id b.id, ==_sym a.token_hash b.token_hash)

pub reset_keys_sym : (a b : PasswordResetToken) → Resets.same_keys a b ≡ Resets.same_keys b a
unfolding Resets.same_keys
reset_keys_sym a b = cc (==_sym a.id b.id, ==_sym a.token_hash b.token_hash)

pub state_keys_sym : (a b : OAuthState) → States.same_keys a b ≡ States.same_keys b a
unfolding States.same_keys
state_keys_sym a b = cc (==_sym a.id b.id, ==_sym a.state_hash b.state_hash)

pub file_keys_sym : (a b : FileRecord) → Files.same_keys a b ≡ Files.same_keys b a
unfolding Files.same_keys
file_keys_sym a b = cc (==_sym a.id b.id, text_eq_sym a.object_key b.object_key)

module _ (d : Db) (h : IsConsistent d) where
  pub with_users :
      (c : List User) → IsUnique Users.same_keys c → IsConsistent (record d { users = c })
  with_users c k = record {
    users = k;
    session_tokens = h.session_tokens;
    password_reset_tokens = h.password_reset_tokens;
    oauth_states = h.oauth_states;
    files = h.files;
    items = h.items;
  }

  pub with_session_tokens :
      (c : List SessionToken)
      → IsUnique Tokens.same_keys c
      → IsConsistent (record d { session_tokens = c })
  with_session_tokens c k = record {
    users = h.users;
    session_tokens = k;
    password_reset_tokens = h.password_reset_tokens;
    oauth_states = h.oauth_states;
    files = h.files;
    items = h.items;
  }

  pub with_password_reset_tokens :
      (c : List PasswordResetToken)
      → IsUnique Resets.same_keys c
      → IsConsistent (record d { password_reset_tokens = c })
  with_password_reset_tokens c k = record {
    users = h.users;
    session_tokens = h.session_tokens;
    password_reset_tokens = k;
    oauth_states = h.oauth_states;
    files = h.files;
    items = h.items;
  }

  pub with_oauth_states :
      (c : List OAuthState)
      → IsUnique States.same_keys c
      → IsConsistent (record d { oauth_states = c })
  with_oauth_states c k = record {
    users = h.users;
    session_tokens = h.session_tokens;
    password_reset_tokens = h.password_reset_tokens;
    oauth_states = k;
    files = h.files;
    items = h.items;
  }

  pub with_files :
      (c : List FileRecord) → IsUnique Files.same_keys c → IsConsistent (record d { files = c })
  with_files c k = record {
    users = h.users;
    session_tokens = h.session_tokens;
    password_reset_tokens = h.password_reset_tokens;
    oauth_states = h.oauth_states;
    files = k;
    items = h.items;
  }
