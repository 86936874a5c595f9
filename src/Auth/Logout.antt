-- ===== src/Auth/Logout.antt =====
-- Logging out, and what it does to the tokens that were issued.
use fastapi_newyear.Base.{ℕ, ◌≡◌, refl, ◌≢◌, none, some, Text, arith, All, Option-cases, inl, inr}
use fastapi_newyear.Errors.{Exc, ok, err, Result-cases}
use fastapi_newyear.Models.Accounts.{access, refresh}
use fastapi_newyear.Env.{Env, Payload}
use fastapi_newyear.World.{World}
use fastapi_newyear.Common.Cache
use fastapi_newyear.Common.Passwords.{hash_token}
use fastapi_newyear.Auth.Tokens
use fastapi_newyear.Auth.Tokens.{get_valid_token}
use fastapi_newyear.Auth.Sessions.{
  AuthSessionResultDto, is_access_jti_valid, delete_access_jtis_for_session,
  delete_all_access_jtis_for_user,
}
use fastapi_newyear.Auth.Sessions.Jtis.{delete_access_jtis_for_session_frame}
use fastapi_newyear.Auth.Tokens.Revocation.{revoke_all_for_user_kills, revoke_by_session_id_kills}
use fastapi_newyear.Common.Jwt.{decode_access_token, decode_refresh_token}
use fastapi_newyear.Auth.Service.{
  claim_id, nonempty, refresh_session, logout_all_sessions, logout_current_session,
}
use fastapi_newyear.Auth.Dependencies.{AuthContext, get_current_auth}

module _ ⦃env : Env⦄ where
  refused_without_record :
      (token : Text) (w : World) (p : Payload) (id : ℕ) (ctx : AuthContext)
      → decode_access_token w.now token ≡ ok p
      → claim_id p.jti ≡ some id
      → get_valid_token id (hash_token token) access w ≡ none
      → (get_current_auth (some token) w).0 ≢ ok ctx
  unfolding get_current_auth nonempty is_access_jti_valid Cache.is_available Cache.get
      get_valid_token
  refused_without_record token w p id ctx e j h = ground arith

  refused_without_id :
      (token : Text) (w : World) (p : Payload) (ctx : AuthContext)
      → decode_access_token w.now token ≡ ok p
      → claim_id p.jti ≡ none
      → (get_current_auth (some token) w).0 ≢ ok ctx
  unfolding get_current_auth nonempty
  refused_without_id token w p ctx e j = ground arith

  refused_undecoded :
      (token : Text) (w : World) (x : Exc) (ctx : AuthContext)
      → decode_access_token w.now token ≡ err x
      → (get_current_auth (some token) w).0 ≢ ok ctx
  unfolding get_current_auth nonempty
  refused_undecoded token w x ctx e = ground arith

  -- A token without a valid record authenticates nobody.
  pub get_current_auth_refused :
      (token : Text) (w : World) (ctx : AuthContext)
      → ((id : ℕ) → get_valid_token id (hash_token token) access w ≡ none)
      → (get_current_auth (some token) w).0 ≢ ok ctx
  get_current_auth_refused token w ctx out = elim (Result-cases (decode_access_token w.now token)) [
    | inl (p, e) ↦ elim (Option-cases (claim_id p.jti)) [
      | inl j ↦ refused_without_id token w p ctx e j
      | inr (id, j) ↦ refused_without_record token w p id ctx e j (out id)
    ]
    | inr (x, e) ↦ refused_undecoded token w x ctx e
  ]

  refresh_refused_without_record :
      (token : Text) (w : World) (p : Payload) (id : ℕ) (r : AuthSessionResultDto)
      → decode_refresh_token w.now token ≡ ok p
      → claim_id p.jti ≡ some id
      → get_valid_token id (hash_token token) refresh w ≡ none
      → (refresh_session token w).0 ≢ ok r
  unfolding refresh_session get_valid_token
  refresh_refused_without_record token w p id r e j h = ground arith

  refresh_refused_without_id :
      (token : Text) (w : World) (p : Payload) (r : AuthSessionResultDto)
      → decode_refresh_token w.now token ≡ ok p
      → claim_id p.jti ≡ none
      → (refresh_session token w).0 ≢ ok r
  unfolding refresh_session
  refresh_refused_without_id token w p r e j = ground arith

  refresh_refused_undecoded :
      (token : Text) (w : World) (x : Exc) (r : AuthSessionResultDto)
      → decode_refresh_token w.now token ≡ err x
      → (refresh_session token w).0 ≢ ok r
  unfolding refresh_session
  refresh_refused_undecoded token w x r e = ground arith

  -- Nor does it renew a session.
  pub refresh_session_refused :
      (token : Text) (w : World) (r : AuthSessionResultDto)
      → ((id : ℕ) → get_valid_token id (hash_token token) refresh w ≡ none)
      → (refresh_session token w).0 ≢ ok r
  refresh_session_refused token w r out = elim (Result-cases (decode_refresh_token w.now token)) [
    | inl (p, e) ↦ elim (Option-cases (claim_id p.jti)) [
      | inl j ↦ refresh_refused_without_id token w p r e j
      | inr (id, j) ↦ refresh_refused_without_record token w p id r e j (out id)
    ]
    | inr (x, e) ↦ refresh_refused_undecoded token w x r e
  ]

  -- The token, if it is recorded at all, is recorded for this user, or for this session.
  abbrev pub OnlyOfUser : Text → ℕ → World → Type 0
  OnlyOfUser token u w =
      All (λ d. d.token_hash ≡ hash_token token → d.user_id ≡ u) w.db.session_tokens

  abbrev pub OnlyOfSession : Text → ℕ → World → Type 0
  OnlyOfSession token sid w =
      All (λ d. d.token_hash ≡ hash_token token → d.session_id ≡ sid) w.db.session_tokens

  -- Neither kind of use of the token succeeds.
  abbrev pub IsRejected : Text → World → Type 0
  IsRejected token w =
      ((ctx : AuthContext) → (get_current_auth (some token) w).0 ≢ ok ctx)
      × ((r : AuthSessionResultDto) → (refresh_session token w).0 ≢ ok r)

  -- Logging out of all sessions succeeds, whatever Redis does, and after it a token of the user is rejected at any
  -- time: no request is accepted with it, and no session is renewed.
  pub logout_all_sessions_rejects :
      (token : Text) (u t : ℕ) (w : World)
      → OnlyOfUser token u w
      → ((logout_all_sessions u w).0 ≡ ok tt)
        × IsRejected token (record (logout_all_sessions u w).1 { now = t })
  unfolding logout_all_sessions delete_all_access_jtis_for_user Cache.del_by_pattern
  logout_all_sessions_rejects token u t w only = (
    refl,
    (
      λ ctx. get_current_auth_refused token _ ctx (λ id.
          revoke_all_for_user_kills u id (hash_token token) t access (Cache.del_by_pattern _ w).1
            only),
      λ r. refresh_session_refused token _ r (λ id.
          revoke_all_for_user_kills u id (hash_token token) t refresh (Cache.del_by_pattern _ w).1
            only),
    ),
  )

  logout_current_session_lem :
      (sid u : ℕ) (w : World)
      → logout_current_session sid u w
        ≡ (ok tt, Tokens.revoke_by_session_id sid (delete_access_jtis_for_session u sid w).1)
  unfolding logout_current_session
  logout_current_session_lem sid u w = ground (arith, delete_access_jtis_for_session_frame u sid w)

  -- Logging out succeeds, whatever Redis does, and after it a token of the session is rejected at any
  -- time: no request is accepted with it, and no session is renewed.
  pub logout_current_session_rejects :
      (token : Text) (sid u t : ℕ) (w : World)
      → OnlyOfSession token sid w
      → ((logout_current_session sid u w).0 ≡ ok tt)
        × IsRejected token (record (logout_current_session sid u w).1 { now = t })
  logout_current_session_rejects token sid u t w only =
      let w1 = (delete_access_jtis_for_session u sid w).1 in
      let only1 : OnlyOfSession token sid w1 =
        rw (delete_access_jtis_for_session_frame u sid w).1 only in
      rw (logout_current_session_lem sid u w) (
        refl,
        (
          λ ctx.
              get_current_auth_refused token _ ctx
                (λ id. revoke_by_session_id_kills sid id (hash_token token) t access w1 only1),
          λ r.
              refresh_session_refused token _ r
                (λ id. revoke_by_session_id_kills sid id (hash_token token) t refresh w1 only1),
        ),
      )
