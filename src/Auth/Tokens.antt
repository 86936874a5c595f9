-- ===== src/Auth/Tokens.antt =====
-- App/modules/auth/token_repository.py: the collection `session_tokens`.
pub mod Revocation
pub mod Rotation
use fastapi_newyear.Base.{
  ℕ, Bool, true, false, not, ◌&&◌, ◌||◌, Option, none, some, List, ◌==◌, ltb,
}
use fastapi_newyear.Errors.{duplicate_key}
use fastapi_newyear.Models.Accounts.{SessionToken, TokenType, same_type}
use fastapi_newyear.Env.{Env}
use fastapi_newyear.World.{World, Action, ◌>>=◌, ◌>>◌, pure, gets, or_raise, modify}

-- The filters. `{"expires_at": {"$gt": utc_now()}}` is `ltb now t.expires_at`.
unfoldable pub valid_token : ℕ → ℕ → ℕ → TokenType → SessionToken → Bool
valid_token now token_id token_hash token_type t =
    token_id == t.id
    && token_hash == t.token_hash
    && same_type token_type t.token_type
    && not t.is_revoked
    && ltb now t.expires_at

unfoldable pub valid_in_session : ℕ → ℕ → TokenType → SessionToken → Bool
valid_in_session now session_id token_type t =
    session_id == t.session_id
    && same_type token_type t.token_type
    && not t.is_revoked
    && ltb now t.expires_at

unfoldable pub live_in_session : ℕ → SessionToken → Bool
live_in_session session_id t = session_id == t.session_id && not t.is_revoked

unfoldable pub live_of_user : ℕ → SessionToken → Bool
live_of_user user_id t = user_id == t.user_id && not t.is_revoked

-- `{"$set": {"is_revoked": True, "revoked_at": utc_now()}}`.
unfoldable pub revoked : ℕ → SessionToken → SessionToken
revoked now t = record t { is_revoked = true; revoked_at = some now }

-- The unique indexes: of `_id`, and of `token_hash`.
unfoldable pub same_keys : SessionToken → SessionToken → Bool
same_keys a b = a.id == b.id || a.token_hash == b.token_hash

abbrev pub set_tokens : List SessionToken → World → World
set_tokens c w = record w { db = record w.db { session_tokens = c } }

module _ ⦃env : Env⦄ where
  unfoldable pub create_token : ℕ → ℕ → ℕ → TokenType → ℕ → ℕ → Action SessionToken
  create_token token_id session_id user_id token_type token_hash expires_at = do
    now ← gets (λ w. w.now)
    let token : SessionToken = record {
      id = token_id;
      session_id = session_id;
      user_id = user_id;
      token_type = token_type;
      token_hash = token_hash;
      expires_at = expires_at;
      is_revoked = false;
      created_at = now;
      revoked_at = none;
    }
    tokens ← gets (λ w. w.db.session_tokens)
    stored ← or_raise (env.mongo.insert_one same_keys token tokens) duplicate_key
    modify (set_tokens stored)
    pure token

  unfoldable pub get_valid_token : ℕ → ℕ → TokenType → World → Option SessionToken
  get_valid_token token_id token_hash token_type w =
      env.mongo.find_one (valid_token w.now token_id token_hash token_type) w.db.session_tokens

  unfoldable pub list_valid_tokens_by_session : ℕ → TokenType → World → List SessionToken
  list_valid_tokens_by_session session_id token_type w =
      env.mongo.find (valid_in_session w.now session_id token_type) w.db.session_tokens

  unfoldable pub revoke_by_session_id : ℕ → World → World
  revoke_by_session_id session_id w =
      set_tokens
        (env.mongo.update_many (live_in_session session_id) (revoked w.now) w.db.session_tokens) w

  unfoldable pub revoke_all_for_user : ℕ → World → World
  revoke_all_for_user user_id w =
      set_tokens (env.mongo.update_many (live_of_user user_id) (revoked w.now) w.db.session_tokens)
        w
