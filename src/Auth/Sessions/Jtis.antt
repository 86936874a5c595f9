-- ===== src/Auth/Sessions/Jtis.antt =====
-- The ids of access tokens in Redis: their deletion never raises and touches nothing else.
use fastapi_newyear.Base.{ℕ, ◌≡◌, refl, List, [], ◌∷◌}
use fastapi_newyear.Errors.{ok}
use fastapi_newyear.Models.Accounts.{SessionToken, access}
use fastapi_newyear.Env.{Env}
use fastapi_newyear.World.{World}
use fastapi_newyear.Common.Cache
use fastapi_newyear.Auth.Tokens
use fastapi_newyear.Auth.Tokens.Revocation.{list_valid_tokens-revoke_by_session_id}
use fastapi_newyear.Auth.Sessions.{
  delete_access_jti, delete_access_jtis, delete_access_jtis_for_session,
}

module _ ⦃env : Env⦄ where
  pub delete_access_jtis_frame :
      (u : ℕ) (tokens : List SessionToken) (w : World)
      → ((delete_access_jtis u tokens w).0 ≡ ok tt)
        × ((delete_access_jtis u tokens w).1.db ≡ w.db)
        × ((delete_access_jtis u tokens w).1.now ≡ w.now)
        × ((delete_access_jtis u tokens w).1.drawn ≡ w.drawn)
  unfolding delete_access_jtis delete_access_jti Cache.del_key
  delete_access_jtis_frame u [] w = (refl, refl, refl, refl)
  delete_access_jtis_frame u (t ∷ tokens) w =
      delete_access_jtis_frame u tokens (delete_access_jti u t.id w).1

  pub delete_access_jtis_for_session_frame :
      (u sid : ℕ) (w : World)
      → ((delete_access_jtis_for_session u sid w).0 ≡ ok tt)
        × ((delete_access_jtis_for_session u sid w).1.db ≡ w.db)
        × ((delete_access_jtis_for_session u sid w).1.now ≡ w.now)
        × ((delete_access_jtis_for_session u sid w).1.drawn ≡ w.drawn)
  unfolding delete_access_jtis_for_session
  delete_access_jtis_for_session_frame u sid w =
      delete_access_jtis_frame u (Tokens.list_valid_tokens_by_session sid access w) w

  -- After the session's tokens are revoked, as `refresh_session` calls it, the deletion finds no token
  -- and deletes nothing.
  pub delete_access_jtis-revoke_by_session_id :
      (u sid : ℕ) (w : World)
      → delete_access_jtis_for_session u sid (Tokens.revoke_by_session_id sid w)
        ≡ (ok tt, Tokens.revoke_by_session_id sid w)
  unfolding delete_access_jtis_for_session delete_access_jtis
  delete_access_jtis-revoke_by_session_id u sid w =
      rw (list_valid_tokens-revoke_by_session_id sid access w)
