-- ===== src/Auth/Resets.antt =====
-- App/modules/auth/reset_token_repository.py: the collection `password_reset_tokens`.
use fastapi_newyear.Base.{ℕ, Bool, true, false, not, ◌&&◌, ◌||◌, Option, List, ◌==◌, ltb}
use fastapi_newyear.Errors.{duplicate_key}
use fastapi_newyear.Models.Accounts.{PasswordResetToken}
use fastapi_newyear.Env.{Env}
use fastapi_newyear.World.{World, Action, ◌>>=◌, ◌>>◌, pure, gets, or_raise, modify, uuid4}

unfoldable pub usable_token : ℕ → ℕ → PasswordResetToken → Bool
usable_token now token_hash t = token_hash == t.token_hash && not t.is_used && ltb now t.expires_at

unfoldable pub with_id : ℕ → PasswordResetToken → Bool
with_id token_id t = token_id == t.id

unfoldable pub unused_of_user : ℕ → PasswordResetToken → Bool
unused_of_user user_id t = user_id == t.user_id && not t.is_used

-- `{"$set": {"is_used": True}}`.
unfoldable pub used : PasswordResetToken → PasswordResetToken
used t = record t { is_used = true }

-- The unique indexes: of `_id`, and of `token_hash`.
unfoldable pub same_keys : PasswordResetToken → PasswordResetToken → Bool
same_keys a b = a.id == b.id || a.token_hash == b.token_hash

abbrev pub set_resets : List PasswordResetToken → World → World
set_resets c w = record w { db = record w.db { password_reset_tokens = c } }

module _ ⦃env : Env⦄ where
  -- The caller gives the user, the digest and the time of expiry.
  unfoldable pub create : ℕ → ℕ → ℕ → Action PasswordResetToken
  unfolding uuid4
  create user_id token_hash expires_at = do
    id ← uuid4
    now ← gets (λ w. w.now)
    let token : PasswordResetToken = record {
      id = id;
      user_id = user_id;
      token_hash = token_hash;
      expires_at = expires_at;
      is_used = false;
      created_at = now;
    }
    tokens ← gets (λ w. w.db.password_reset_tokens)
    stored ← or_raise (env.mongo.insert_one same_keys token tokens) duplicate_key
    modify (set_resets stored)
    pure token

  unfoldable pub get_valid_token : ℕ → World → Option PasswordResetToken
  get_valid_token token_hash w =
      env.mongo.find_one (usable_token w.now token_hash) w.db.password_reset_tokens

  unfoldable pub mark_used : PasswordResetToken → Action (Option PasswordResetToken)
  mark_used token = do
    tokens ← gets (λ w. w.db.password_reset_tokens)
    stored ← or_raise (env.mongo.update_one same_keys (with_id token.id) used tokens) duplicate_key
    modify (set_resets stored)
    gets (λ w. env.mongo.find_one (with_id token.id) w.db.password_reset_tokens)

  unfoldable pub mark_all_used_for_user : ℕ → World → World
  mark_all_used_for_user user_id w =
      set_resets (env.mongo.update_many (unused_of_user user_id) used w.db.password_reset_tokens) w
