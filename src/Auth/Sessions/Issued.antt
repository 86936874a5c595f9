-- ===== src/Auth/Sessions/Issued.antt =====
-- What `_issue_session_for_user` has stored when it returns.
use fastapi_newyear.Base.{
  ℕ, ◌+◌, ◌≡◌, ◌≢◌, refl, false, none, some, [], ◌∷◌, ◌++◌, arith, has, Text, ap, ◌∙◌, Option-cases,
  inl, inr,
}
use fastapi_newyear.Errors.{Exc, ok, err, Result-cases}
use fastapi_newyear.Config.{access_ttl, refresh_ttl}
use fastapi_newyear.Models.Accounts.{User, SessionToken, TokenType, access, refresh}
use fastapi_newyear.Env.{Env}
use fastapi_newyear.World.{World, uuid4}
use fastapi_newyear.Common.Cache
use fastapi_newyear.Common.Jwt.{create_jwt, create_access_token, create_refresh_token}
use fastapi_newyear.Common.Passwords.{hash_token}
use fastapi_newyear.Auth.Tokens.{same_keys, create_token}
use fastapi_newyear.Auth.Sessions.{
  AuthSessionResultDto, issue_session, issue_session_for_user, store_access_jti,
}
use fastapi_newyear.Users.Service
use fastapi_newyear.Auth.Service.{nonempty}

nonempty-some : (s : Text) → s ≢ [] → nonempty (some s) ≡ some s
unfolding nonempty
nonempty-some [] h = absurd (h refl)
nonempty-some (c ∷ s) h = refl

module _ ⦃env : Env⦄ where
  -- The record of a new token, by its place among the ids drawn.
  abbrev pub new_token : User → World → TokenType → ℕ → Text × ℕ → SessionToken
  new_token user w ty n jwt = record {
    id = env.uuid4 n;
    session_id = env.uuid4 w.drawn;
    user_id = user.id;
    token_type = ty;
    token_hash = hash_token jwt.0;
    expires_at = jwt.1;
    is_revoked = false;
    created_at = w.now;
    revoked_at = none;
  }

  abbrev pub access_jwt : User → World → ℕ → Text × ℕ
  access_jwt user w ttl =
      create_jwt w.now user.id (env.uuid4 w.drawn) (env.uuid4 (w.drawn + 1)) access
        env.settings.jwt_access_secret ttl

  -- A token is no empty text.
  pub nonempty_access :
      (user : User) (w : World) (ttl : ℕ)
      → nonempty (some (access_jwt user w ttl).0) ≡ some (access_jwt user w ttl).0
  unfolding create_jwt
  nonempty_access user w ttl = nonempty-some _ (env.jwt.encode_nonempty _ _)

  abbrev pub refresh_jwt : User → World → ℕ → Text × ℕ
  refresh_jwt user w ttl =
      create_jwt w.now user.id (env.uuid4 w.drawn) (env.uuid4 (w.drawn + 1 + 1)) refresh
        env.settings.jwt_refresh_secret ttl

  abbrev pub new_access : User → World → ℕ → SessionToken
  new_access user w ttl = new_token user w access (w.drawn + 1) (access_jwt user w ttl)

  abbrev pub new_refresh : User → World → ℕ → SessionToken
  new_refresh user w ttl = new_token user w refresh (w.drawn + 1 + 1) (refresh_jwt user w ttl)

  module _ (a b : ℕ) (ha : access_ttl env.settings ≡ ok a)
      (hb : refresh_ttl env.settings ≡ ok b) where
    -- A session that was issued has its two tokens at the end of the collection, with keys that no
    -- other token has.
    pub issue_session_stores :
        (user : User) (w : World) (r : AuthSessionResultDto)
        → (issue_session user w).0 ≡ ok r
        → let c = w.db.session_tokens in
          ((issue_session user w).1.db ≡ record w.db {
            session_tokens = (c ++ new_access user w a ∷ []) ++ new_refresh user w b ∷ [];
          })
          × (has (same_keys (new_access user w a)) c ≡ false)
          × (has (same_keys (new_refresh user w b)) (c ++ new_access user w a ∷ []) ≡ false)
          × (r.access_token ≡ (access_jwt user w a).0)
          × (r.refresh_token ≡ (refresh_jwt user w b).0)
    unfolding issue_session uuid4 create_access_token create_refresh_token create_token
        store_access_jti Cache.set
    issue_session_stores user w r h = ground (
      arith,
      ha,
      hb,
      env.mongo.insert_one_lem same_keys (new_access user w a) w.db.session_tokens,
      env.mongo.insert_one_lem same_keys (new_refresh user w b)
          (w.db.session_tokens ++ new_access user w a ∷ []),
    )

  issue_without_user :
      (user_id : ℕ) (w : World) (r : AuthSessionResultDto)
      → (Service.get_active_by_id user_id w).0 ≡ ok none
      → (issue_session_for_user user_id w).0 ≢ ok r
  unfolding issue_session_for_user
  issue_without_user user_id w r e = ground arith

  issue_without_answer :
      (user_id : ℕ) (w : World) (x : Exc) (r : AuthSessionResultDto)
      → (Service.get_active_by_id user_id w).0 ≡ err x
      → (issue_session_for_user user_id w).0 ≢ ok r
  unfolding issue_session_for_user
  issue_without_answer user_id w x r e = ground arith

  issue_with_user :
      (user_id : ℕ) (w : World) (user : User)
      → (Service.get_active_by_id user_id w).0 ≡ ok (some user)
      → issue_session_for_user user_id w ≡ issue_session user (Service.get_active_by_id user_id w).1
  unfolding issue_session_for_user
  issue_with_user user_id w user e = ground arith

  -- A session is issued for the user that is found by the id.
  pub issue_session_for_user_cases :
      (user_id : ℕ) (w : World) (r : AuthSessionResultDto)
      → (issue_session_for_user user_id w).0 ≡ ok r
      → (user : User) × ((Service.get_active_by_id user_id w).0 ≡ ok (some user))
        × (issue_session_for_user user_id w
            ≡ issue_session user (Service.get_active_by_id user_id w).1)
  issue_session_for_user_cases user_id w r h =
      elim (Result-cases (Service.get_active_by_id user_id w).0) [
        | inr (x, e) ↦ absurd (issue_without_answer user_id w x r e h)
        | inl (o, e) ↦ elim (Option-cases o) [
          | inl n ↦ absurd (issue_without_user user_id w r (e ∙ ap ok n) h)
          | inr (user, s) ↦
              let found : (Service.get_active_by_id user_id w).0 ≡ ok (some user) = e ∙ ap ok s in
              (user, found, issue_with_user user_id w user found)
        ]
      ]
