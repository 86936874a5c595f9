-- ===== src/Auth/Sessions/Accepted.antt =====
-- The access token of a session that was issued lets its user in until it expires.
use fastapi_newyear.Base.{
  ℕ, ◌+◌, ◌-◌, ◌*◌, ◌/◌, ◌≤◌, ◌<◌, ◌≡◌, refl, ap, ◌∙◌, true, false, some, List, [], ◌∷◌, ◌++◌, Text,
  arith, first, has, first-append, has_less, has-first, max, ==_refl,
}
use fastapi_newyear.Errors.{ok, unauthorized}
use fastapi_newyear.Config.{second, access_ttl, refresh_ttl}
use fastapi_newyear.Models.Accounts.{User, SessionToken, access}
use fastapi_newyear.Env.{Env, Payload}
use fastapi_newyear.Redis.{Value, valid, key_eq_refl}
use fastapi_newyear.World.{World, Db, Action, ◌>>=◌, pure, or_raise, uuid4}
use fastapi_newyear.Common.Cache
use fastapi_newyear.Common.Cache.Client
use fastapi_newyear.Common.Cache.Client.{peek, called}
use fastapi_newyear.Common.Jwt.{
  claims, create_jwt, create_access_token, create_refresh_token, decode_access_token, check_access,
}
use fastapi_newyear.Common.Passwords.{hash_token}
use fastapi_newyear.Users.Service
use fastapi_newyear.Auth.Tokens.{same_keys, valid_token, create_token, get_valid_token}
use fastapi_newyear.Auth.Sessions.{
  AuthSessionResultDto, issue_session, store_access_jti, is_access_jti_valid, access_jti_key,
}
use fastapi_newyear.Auth.Sessions.Issued.{
  new_access, new_refresh, access_jwt, nonempty_access, issue_session_stores,
}
use fastapi_newyear.Auth.Service.{claim_id, nonempty}
use fastapi_newyear.Auth.Dependencies.{AuthContext, get_current_auth}

module _ ⦃env : Env⦄ where
  -- What `get_current_auth` ends with.
  abbrev pub with_user : ℕ → Payload → Action AuthContext
  with_user u p = Service.get_active_by_id u >>= λ found.
      or_raise found (unauthorized "User not found") >>= λ user.
      pure (record { user = user; payload = p })

  module _ (up : (n : ℕ) → env.redis_fails n ≡ false) where
    get_current_auth_accepts :
        (token : Text) (w : World) (p : Payload) (id u : ℕ) (v : Value) (d : SessionToken)
        → nonempty (some token) ≡ some token
        → decode_access_token w.now token ≡ ok p
        → claim_id p.jti ≡ some id
        → claim_id p.sub ≡ some u
        → peek w.now (access_jti_key u id) w.server ≡ some v
        → get_valid_token id (hash_token token) access w ≡ some d
        → get_current_auth (some token) w
          ≡ with_user u p (record w { server = called (called w.server) })
    unfolding get_current_auth is_access_jti_valid Cache.is_available Cache.get Client.ping
        Client.get get_valid_token
    get_current_auth_accepts token w p id u v d some_token e j s stored found =
        ground (arith, up w.server.calls, up (w.server.calls + 1))

    module _ (a b : ℕ) (ha : access_ttl env.settings ≡ ok a)
        (hb : refresh_ttl env.settings ≡ ok b) where
      -- When the id of the access token is stored.
      abbrev stored_at : World → ℕ
      stored_at w = w.now + env.elapsed (w.drawn + 1 + 1 + 1)

      dump-issue_session :
          (user : User) (w : World) (r : AuthSessionResultDto)
          → (issue_session user w).0 ≡ ok r
          → (issue_session user w).1.server.dump
            ≡ env.redis.set
                (stored_at w)
                (access_jti_key user.id (env.uuid4 (w.drawn + 1)))
                valid
                (max 1 ((w.now + a - stored_at w) / second))
                w.server.dump
      unfolding issue_session uuid4 create_access_token create_refresh_token create_jwt create_token
          store_access_jti Cache.set Client.set
      dump-issue_session user w r h = ground (
        arith,
        ha,
        hb,
        up w.server.calls,
        env.mongo.insert_one_lem same_keys (new_access user w a) w.db.session_tokens,
        env.mongo.insert_one_lem same_keys (new_refresh user w b)
            (w.db.session_tokens ++ new_access user w a ∷ []),
      )

      new_access_valid :
          (user : User) (w : World) (t : ℕ)
          → t < w.now + a
          → let d = new_access user w a in valid_token t d.id d.token_hash access d ≡ true
      unfolding valid_token create_jwt
      new_access_valid user w t early =
          let d = new_access user w a in ground (arith, ==_refl d.id, ==_refl d.token_hash)

      same_as_valid :
          (t : ℕ) (d x : SessionToken)
          → valid_token t d.id d.token_hash access x ≡ true
          → same_keys d x ≡ true
      unfolding valid_token same_keys
      same_as_valid t d x h = ground arith

      first_new :
          (t : ℕ) (d e : SessionToken) (c : List SessionToken)
          → has (same_keys d) c ≡ false
          → valid_token t d.id d.token_hash access d ≡ true
          → first (valid_token t d.id d.token_hash access) ((c ++ d ∷ []) ++ e ∷ []) ≡ some d
      unfolding first
      first_new t d e c free valid_d =
          let p = valid_token t d.id d.token_hash access in
          ground (
            arith,
            first-append p (c ++ d ∷ []) (e ∷ []),
            first-append p c (d ∷ []),
            has-first p c (has_less p (same_keys d) (same_as_valid t d) c free),
          )

      -- The claims of the access token.
      abbrev pub access_claims : User → World → Payload
      access_claims user w =
          claims w.now user.id (env.uuid4 w.drawn) (env.uuid4 (w.drawn + 1)) access a

      decode_new :
          (user : User) (w : World) (t : ℕ)
          → w.now ≤ t
          → t < (w.now + a) / second * second
          → decode_access_token t (access_jwt user w a).0 ≡ ok (access_claims user w)
      unfolding decode_access_token check_access create_jwt claims
      decode_new user w t later early = ground (
        arith,
        env.jwt.decode-encode t (access_claims user w) env.settings.jwt_access_secret (omega arith)
            early,
      )

      stored_jti :
          (user : User) (w : World) (r : AuthSessionResultDto) (t : ℕ)
          → (issue_session user w).0 ≡ ok r
          → t + second ≤ w.now + a
          → peek t
              (access_jti_key user.id (env.uuid4 (w.drawn + 1)))
              (issue_session user w).1.server
            ≡ some valid
      stored_jti user w r t h early =
          let k = access_jti_key user.id (env.uuid4 (w.drawn + 1)) in
          let ttl = max 1 ((w.now + a - stored_at w) / second) in
          let lasts : t < stored_at w + ttl * second = omega arith in
          ground (
            arith,
            dump-issue_session user w r h,
            env.redis.get-set t (stored_at w) k k valid ttl w.server.dump,
            key_eq_refl k,
          )

      recorded :
          (user : User) (w : World) (r : AuthSessionResultDto) (t : ℕ)
          → (issue_session user w).0 ≡ ok r
          → t < w.now + a
          → let d = new_access user w a in
            get_valid_token d.id d.token_hash access (record (issue_session user w).1 { now = t })
            ≡ some d
      unfolding get_valid_token
      recorded user w r t h early =
          let d = new_access user w a in
          let e = new_refresh user w b in
          let (stored, fresh, _, _, _) = issue_session_stores a b ha hb user w r h in
          env.mongo.find_one_lem (valid_token t d.id d.token_hash access)
            (issue_session user w).1.db.session_tokens
          ∙ ap (λ (c : Db). first (valid_token t d.id d.token_hash access) c.session_tokens) stored
          ∙ first_new t d e w.db.session_tokens fresh (new_access_valid user w t early)

      -- The access token of a session that was issued is accepted until a second before its time to live is over: the
      -- request goes on as the user of the session, with the claims of the token, if that user can still be loaded. However
      -- much time the issue has taken itself, no call of Redis fails, and the state has not changed since but for the clock.
      pub get_current_auth-issue_session :
          (user : User) (w : World) (r : AuthSessionResultDto) (t : ℕ)
          → (issue_session user w).0 ≡ ok r
          → w.now ≤ t
          → t + second ≤ w.now + a
          → let w' = record (issue_session user w).1 { now = t } in
            get_current_auth (some r.access_token) w'
            ≡ with_user user.id
                (access_claims user w)
                (record w' { server = called (called w'.server) })
      unfolding claim_id claims
      get_current_auth-issue_session user w r t h later early =
          let d = new_access user w a in
          let w' = record (issue_session user w).1 { now = t } in
          let (_, _, _, issued, _) = issue_session_stores a b ha hb user w r h in
          let soon : t < w.now + a = omega arith in
          rw issued (
            get_current_auth_accepts (access_jwt user w a).0 w' (access_claims user w) d.id user.id
              valid d (nonempty_access user w a) (decode_new user w t later (omega arith)) refl refl
              (stored_jti user w r t h early) (recorded user w r t h soon))
