-- ===== src/Auth/States.antt =====
-- App/modules/auth/oauth_state_repository.py: the collection `oauth_states`.
use fastapi_newyear.Base.{
  ℕ, Bool, true, false, not, ◌&&◌, ◌||◌, Option, List, Text, text_eq, ◌==◌, ltb,
}
use fastapi_newyear.Errors.{duplicate_key}
use fastapi_newyear.Models.Accounts.{OAuthState}
use fastapi_newyear.Env.{Env}
use fastapi_newyear.World.{World, Action, ◌>>=◌, ◌>>◌, pure, gets, or_raise, modify, uuid4}

unfoldable pub usable_state : ℕ → Text → ℕ → OAuthState → Bool
usable_state now provider state_hash s =
    text_eq provider s.provider
    && state_hash == s.state_hash
    && not s.is_used
    && ltb now s.expires_at

unfoldable pub with_id : ℕ → OAuthState → Bool
with_id state_id s = state_id == s.id

-- `{"$set": {"is_used": True}}`.
unfoldable pub used : OAuthState → OAuthState
used s = record s { is_used = true }

-- The unique indexes: of `_id`, and of `state_hash`.
unfoldable pub same_keys : OAuthState → OAuthState → Bool
same_keys a b = a.id == b.id || a.state_hash == b.state_hash

abbrev pub set_states : List OAuthState → World → World
set_states c w = record w { db = record w.db { oauth_states = c } }

module _ ⦃env : Env⦄ where
  -- The caller gives the provider, the digest and the time of expiry.
  unfoldable pub create : Text → ℕ → ℕ → Action OAuthState
  unfolding uuid4
  create provider state_hash expires_at = do
    id ← uuid4
    now ← gets (λ w. w.now)
    let state : OAuthState = record {
      id = id;
      provider = provider;
      state_hash = state_hash;
      expires_at = expires_at;
      is_used = false;
      created_at = now;
    }
    states ← gets (λ w. w.db.oauth_states)
    stored ← or_raise (env.mongo.insert_one same_keys state states) duplicate_key
    modify (set_states stored)
    pure state

  unfoldable pub get_valid_state : Text → ℕ → World → Option OAuthState
  get_valid_state provider state_hash w =
      env.mongo.find_one (usable_state w.now provider state_hash) w.db.oauth_states

  unfoldable pub mark_used : OAuthState → Action (Option OAuthState)
  mark_used state = do
    states ← gets (λ w. w.db.oauth_states)
    stored ← or_raise (env.mongo.update_one same_keys (with_id state.id) used states) duplicate_key
    modify (set_states stored)
    gets (λ w. env.mongo.find_one (with_id state.id) w.db.oauth_states)
