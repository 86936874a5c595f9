-- ===== src/Examples/Sessions.antt =====
-- Witnesses of the theorems on sessions.
use fastapi_newyear.Base.{
  ℕ, ◌≡◌, refl, ◌≢◌, arith, codes, ◌∷◌, [], some, none, first, has, update_all, update_first,
  matching, text_eq,
}
use fastapi_newyear.Errors.{ok}
use fastapi_newyear.World.{World}
use fastapi_newyear.Models.Accounts.{refresh}
use fastapi_newyear.Common.Cache
use fastapi_newyear.Common.Cache.Client
use fastapi_newyear.Common.Jwt.{decode_refresh_token, create_access_token, create_refresh_token}
use fastapi_newyear.Common.Passwords.{hash_token}
use fastapi_newyear.Config.{access_ttl, refresh_ttl, parse_duration}
use fastapi_newyear.Users.Service
use fastapi_newyear.Users.Repository
use fastapi_newyear.Auth.Tokens
use fastapi_newyear.Auth.Sessions
use fastapi_newyear.Auth.Sessions.{AuthSessionResultDto}
use fastapi_newyear.Auth.Sessions.Jtis.{delete_access_jtis-revoke_by_session_id}
use fastapi_newyear.Auth.Service.{
  refresh_session, claim_id, logout_all_sessions, logout_current_session,
}
use fastapi_newyear.Auth.Logout.{
  IsRejected, logout_all_sessions_rejects, logout_current_session_rejects,
}
use fastapi_newyear.Auth.Refresh.{refresh_session_once}
use fastapi_newyear.Examples.Environment.{env}
use fastapi_newyear.Examples.Accounts.{signed_in, access_token, refresh_token}

logout_all_example :
    ((logout_all_sessions 103 signed_in).0 ≡ ok tt)
    × IsRejected access_token (record (logout_all_sessions 103 signed_in).1 { now = 1000000001 })
unfolding hash_token
logout_all_example =
    logout_all_sessions_rejects access_token 103 1000000001 signed_in
      (λ _. refl, (λ _. refl, (λ h. ground arith, tt)))

logout_current_example :
    ((logout_current_session 104 103 signed_in).0 ≡ ok tt)
    × IsRejected refresh_token
        (record (logout_current_session 104 103 signed_in).1 { now = 1000000001 })
unfolding hash_token
logout_current_example =
    logout_current_session_rejects refresh_token 104 103 1000000001 signed_in
      (λ _. refl, (λ _. refl, (λ h. ground arith, tt)))

delete_after_revoke_example :
    Sessions.delete_access_jtis_for_session 103 104 (Tokens.revoke_by_session_id 104 signed_in)
    ≡ (ok tt, Tokens.revoke_by_session_id 104 signed_in)
delete_after_revoke_example = delete_access_jtis-revoke_by_session_id 103 104 signed_in

abbrev pub renewed : AuthSessionResultDto
renewed = record {
  user = record {
    id = 103;
    email = codes "a@x";
    phone = none;
    display_name = none;
    bio = none;
    avatar_file_id = none;
    created_at = 1000000000;
  };
  access_token = 105 ∷ 110 ∷ 111 ∷ 1 ∷ 1000 ∷ 1900 ∷ codes "A";
  refresh_token = 105 ∷ 110 ∷ 112 ∷ 2 ∷ 1000 ∷ 605800 ∷ codes "R";
}

refreshed : (refresh_session refresh_token signed_in).0 ≡ ok renewed
unfolding refresh_session decode_refresh_token text_eq claim_id Tokens.get_valid_token first
    Tokens.valid_token hash_token Service.get_active_by_id Cache.get Client.get
    fastapi_newyear.Examples.Keys.get Service.profile_cache_key Cache.key
    Repository.get_active_by_id Repository.by_id Service.cache_public_profile Service.public_profile
    Cache.set Sessions.delete_access_jtis_for_session Sessions.delete_access_jtis
    Tokens.list_valid_tokens_by_session matching Tokens.revoke_by_session_id update_all
    Tokens.valid_in_session Tokens.live_in_session Tokens.revoked Sessions.issue_session_for_user
    Client.set Service.cached_profile Sessions.issue_session fastapi_newyear.World.uuid4
    create_access_token access_ttl fastapi_newyear.Base.strip fastapi_newyear.Base.lower
    create_refresh_token refresh_ttl Tokens.create_token has Tokens.same_keys
    fastapi_newyear.Common.Jwt.claims Service.user_of_profile Sessions.store_access_jti
refreshed = refl

refresh_once_example :
    (refresh_session refresh_token
      (record (refresh_session refresh_token signed_in).1 { now = 1000000001 })).0
    ≢ ok renewed
unfolding refresh_session decode_refresh_token access_ttl refresh_ttl parse_duration claim_id
    hash_token fastapi_newyear.Base.strip fastapi_newyear.Base.lower text_eq
refresh_once_example =
    refresh_session_once refresh_token
      (record {
        sub = some (some 103);
        sid = some (some 104);
        jti = some (some 106);
        typ = some refresh;
        iat = 1000;
        exp = 605800;
      })
      106 104 103 900000000 604800000000 1000000001 signed_in renewed renewed refl refl refl refl
      refl refl (λ h. ground arith, (λ _. refl, (λ h. ground arith, tt))) refreshed
