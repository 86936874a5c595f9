-- ===== src/Auth/Refresh.antt =====
-- `refresh_session`: the rotation of refresh tokens.
use fastapi_newyear.Base.{
  ℕ, ◌≡◌, refl, ◌≢◌, false, none, some, List, [], ◌∷◌, ◌++◌, Text, arith, first, has, update_all,
  sym, ap, ◌∙◌, Option-cases, inl, inr,
}
use fastapi_newyear.Errors.{Exc, Result, ok, err, Result-cases}
use fastapi_newyear.Config.{access_ttl, refresh_ttl}
use fastapi_newyear.Models.Accounts.{User, SessionToken, access, refresh}
use fastapi_newyear.Env.{Env, Payload}
use fastapi_newyear.World.{World, Db}
use fastapi_newyear.Common.Jwt.{decode_refresh_token}
use fastapi_newyear.Common.Passwords.{hash_token}
use fastapi_newyear.Users.Service
use fastapi_newyear.Users.Service.Frame.{get_active_by_id_frame}
use fastapi_newyear.Auth.Tokens.{
  get_valid_token, revoke_by_session_id, same_keys, valid_token, live_in_session, revoked,
}
use fastapi_newyear.Auth.Sessions.Issued.{
  new_access, new_refresh, issue_session_stores, issue_session_for_user_cases,
}
use fastapi_newyear.Auth.Sessions.{AuthSessionResultDto, issue_session_for_user}
use fastapi_newyear.Auth.Sessions.Jtis.{delete_access_jtis-revoke_by_session_id}
use fastapi_newyear.Auth.Logout.{OnlyOfSession, refresh_session_refused}
use fastapi_newyear.Auth.Tokens.Rotation.{old_token_invalid}
use fastapi_newyear.Auth.Service.{refresh_session, claim_id}

module _ ⦃env : Env⦄ where
  module _ (token : Text) (w : World) (p : Payload) (id sid u : ℕ) (r : AuthSessionResultDto)
      (e : decode_refresh_token w.now token ≡ ok p) (ej : claim_id p.jti ≡ some id)
      (es : claim_id p.sid ≡ some sid) (eu : claim_id p.sub ≡ some u)
      (h : (refresh_session token w).0 ≡ ok r) where
    refresh_had_record : get_valid_token id (hash_token token) refresh w ≢ none
    unfolding refresh_session
    refresh_had_record = ground arith

    refresh_had_user : (Service.get_active_by_id u w).0 ≢ ok none
    unfolding refresh_session
    refresh_had_user = ground arith

    refresh_had_answer : (x : Exc) → (Service.get_active_by_id u w).0 ≢ err x
    unfolding refresh_session
    refresh_had_answer x = ground arith

    -- With its user found, it goes on as a new session of that user does, after the revocation.
    refresh_session_issues :
        (user : User)
        → (Service.get_active_by_id u w).0 ≡ ok (some user)
        → refresh_session token w
          ≡ issue_session_for_user user.id
              (revoke_by_session_id sid (Service.get_active_by_id u w).1)
    unfolding refresh_session
    refresh_session_issues user f = ground (
      arith,
      delete_access_jtis-revoke_by_session_id user.id sid (Service.get_active_by_id u w).1,
    )

    refresh_found : (user : User) × ((Service.get_active_by_id u w).0 ≡ ok (some user))
    refresh_found = elim (Result-cases (Service.get_active_by_id u w).0) [
      | inr (x, f) ↦ absurd (refresh_had_answer x f)
      | inl (o, f) ↦ elim (Option-cases o) [
        | inl n ↦ absurd (refresh_had_user (f ∙ ap ok n))
        | inr (user, s) ↦ (user, f ∙ ap ok s)
      ]
    ]

    tokens_before :
        (x : ℕ)
        → (Service.get_active_by_id x
            (revoke_by_session_id sid (Service.get_active_by_id u w).1)).1.db.session_tokens
          ≡ update_all (live_in_session sid) (revoked w.now) w.db.session_tokens
    unfolding revoke_by_session_id
    tokens_before x =
        let v : World = (Service.get_active_by_id u w).1 in
        let f = get_active_by_id_frame u w in
        ap (λ (d : Db). d.session_tokens) (get_active_by_id_frame x (revoke_by_session_id sid v)).db
        ∙ env.mongo.update_many_lem (live_in_session sid) (revoked v.now) v.db.session_tokens
        ∙ ap (λ (n : ℕ). update_all (live_in_session sid) (revoked n) v.db.session_tokens) f.now
        ∙ ap (λ (d : Db). update_all (live_in_session sid) (revoked w.now) d.session_tokens) f.db

    -- The tokens after a refresh: those before it, with the session's revoked, and the new pair.
    session_tokens-refresh_session :
        (a b : ℕ)
        → access_ttl env.settings ≡ ok a
        → refresh_ttl env.settings ≡ ok b
        → (x y : SessionToken) × ((refresh_session token w).1.db.session_tokens
            ≡ (update_all (live_in_session sid) (revoked w.now) w.db.session_tokens ++ x ∷ [])
              ++ y ∷ [])
          × (x.token_type ≡ access)
          × (has
                (same_keys y)
                (update_all (live_in_session sid) (revoked w.now) w.db.session_tokens ++ x ∷ [])
              ≡ false)
    session_tokens-refresh_session a b ha hb =
        let (user, found) = refresh_found in
        let v : World = revoke_by_session_id sid (Service.get_active_by_id u w).1 in
        let issues : refresh_session token w ≡ issue_session_for_user user.id v =
          refresh_session_issues user found in
        let issued : (issue_session_for_user user.id v).0 ≡ ok r =
          sym (ap (λ (q : Result AuthSessionResultDto × World). q.0) issues) ∙ h in
        let (user', found', issues') = issue_session_for_user_cases user.id v r issued in
        let v' : World = (Service.get_active_by_id user.id v).1 in
        let stored =
          issue_session_stores a b ha hb user' v' r
            (sym (ap (λ (q : Result AuthSessionResultDto × World). q.0) issues') ∙ issued) in
        let before = tokens_before user.id in
        (
          new_access user' v' a,
          new_refresh user' v' b,
          ap (λ (q : Result AuthSessionResultDto × World). q.1.db.session_tokens) (issues ∙ issues')
              ∙ ap (λ (d : Db). d.session_tokens) stored.0
              ∙ ap
                  (λ (c : List SessionToken).
                    (c ++ new_access user' v' a ∷ []) ++ new_refresh user' v' b ∷ [])
                  before,
          refl,
          sym (
                ap
                  (λ (c : List SessionToken).
                    has (same_keys (new_refresh user' v' b)) (c ++ new_access user' v' a ∷ []))
                  before)
              ∙ stored.2,
        )

  second_lookup :
      (id' t : ℕ) (x y d : SessionToken) (token : Text) (id sid : ℕ) (w w' : World)
      → OnlyOfSession token sid w
      → get_valid_token id (hash_token token) refresh w ≡ some d
      → x.token_type ≡ access
      → has
          (same_keys y)
          (update_all (live_in_session sid) (revoked w.now) w.db.session_tokens ++ x ∷ [])
        ≡ false
      → w'.db.session_tokens
        ≡ (update_all (live_in_session sid) (revoked w.now) w.db.session_tokens ++ x ∷ []) ++ y ∷ []
      → get_valid_token id' (hash_token token) refresh (record w' { now = t }) ≡ none
  unfolding get_valid_token
  second_lookup id' t x y d token id sid w w' only f xt free after =
      env.mongo.find_one_lem _ w'.db.session_tokens
      ∙ ap (first (valid_token t id' (hash_token token) refresh)) after
      ∙ old_token_invalid w.now t id id' (hash_token token) sid w.db.session_tokens x y d only
          (sym (
              env.mongo.find_one_lem (valid_token w.now id (hash_token token) refresh)
                w.db.session_tokens)
            ∙ f)
          xt free

  -- The same refresh token does not renew a session twice: once a refresh by it has succeeded, a second
  -- one fails, at any later time. The records of the token are those of its own session.
  pub refresh_session_once :
      (token : Text) (p : Payload) (id sid u a b t : ℕ) (w : World) (r r' : AuthSessionResultDto)
      → access_ttl env.settings ≡ ok a
      → refresh_ttl env.settings ≡ ok b
      → decode_refresh_token w.now token ≡ ok p
      → claim_id p.jti ≡ some id
      → claim_id p.sid ≡ some sid
      → claim_id p.sub ≡ some u
      → OnlyOfSession token sid w
      → (refresh_session token w).0 ≡ ok r
      → (refresh_session token (record (refresh_session token w).1 { now = t })).0 ≢ ok r'
  refresh_session_once token p id sid u a b t w r r' ha hb e ej es eu only h =
      let (x, y, after, xt, free) =
        session_tokens-refresh_session token w p id sid u r e ej es eu h a b ha hb in
      refresh_session_refused token (record (refresh_session token w).1 { now = t }) r'
        λ id'. elim (Option-cases (get_valid_token id (hash_token token) refresh w)) [
          | inl n ↦ absurd (refresh_had_record token w p id sid u r e ej es eu h n)
          | inr (d, f) ↦
              second_lookup id' t x y d token id sid w (refresh_session token w).1 only f xt free
                after
        ]
