-- ===== src/Consistency/Sessions.antt =====
-- Registration, login, refresh and logout (App/modules/auth/service.py) keep what the writes to their collections keep.
use fastapi_newyear.Base.{
  ℕ, strip, lower, is_some, Text, Option, none, some, refl, arith, inl, inr, Option-cases,
}
use fastapi_newyear.Errors.{Exc, unauthorized, conflict}
use fastapi_newyear.Models.Accounts.{User, access, refresh}
use fastapi_newyear.Env.{Env}
use fastapi_newyear.Redis.{Key}
use fastapi_newyear.World.{
  Db, Action, ◌>>=◌, pure, lift, or_raise, modify, uuid4, finally, on_duplicate_key,
}
use fastapi_newyear.World.Keeps.{
  Keeps, bind, reads, pure_keeps, gets_keeps, lift_keeps, or_raise_keeps, raise_if_keeps,
}
use fastapi_newyear.Common.Cache
use fastapi_newyear.Common.Passwords.{hash_token}
use fastapi_newyear.Common.Jwt.{create_access_token, create_refresh_token, decode_refresh_token}
use fastapi_newyear.Notifications.Events.{publish, publish_user_registered_event}
use fastapi_newyear.Users.Service as Users
use fastapi_newyear.Auth.Tokens
use fastapi_newyear.Auth.Sessions
use fastapi_newyear.Auth.Sessions.{AuthSessionResultDto}
use fastapi_newyear.Auth.Sessions.Jtis.{delete_access_jtis_for_session_frame}
use fastapi_newyear.Auth.Service
use fastapi_newyear.Auth.Service.{claim_id, instruction_sent}
use fastapi_newyear.Consistency.Accounts.{
  AccountWrites, get_active_by_id_keeps, create_local_user_keeps,
}

module _ ⦃env : Env⦄ (P : Db → Type 0) (writes : AccountWrites P) where
  uuid4_keeps : Keeps P uuid4
  unfolding uuid4
  uuid4_keeps = reads (λ w. refl)

  store_access_jti_keeps : (u id e : ℕ) → Keeps P (Sessions.store_access_jti u id e)
  unfolding Sessions.store_access_jti Cache.set
  store_access_jti_keeps u id e = reads (λ w. ground arith)

  -- The part of `issue_session` behind the making of the tokens.
  stored_keeps :
      (user : User) (sid id id' : ℕ) (a b : Text × ℕ)
      → Keeps P (
          Tokens.create_token id sid user.id access (hash_token a.0) a.1 >>= λ _.
          Tokens.create_token id' sid user.id refresh (hash_token b.0) b.1 >>= λ _.
          Sessions.store_access_jti user.id id a.1 >>= λ _.
          lift (Users.public_profile user) >>= λ p.
          pure {A = AuthSessionResultDto}
            (record { user = p; access_token = a.0; refresh_token = b.0 }))
  stored_keeps user sid id id' a b =
      bind (writes.create_token id sid user.id access (hash_token a.0) a.1) (λ _.
        bind (writes.create_token id' sid user.id refresh (hash_token b.0) b.1) (λ _.
          bind (store_access_jti_keeps user.id id a.1)
            (λ _. bind (lift_keeps (Users.public_profile user)) (λ p. pure_keeps _))))

  issue_session_keeps : (user : User) → Keeps P (Sessions.issue_session user)
  unfolding Sessions.issue_session
  issue_session_keeps user = bind (gets_keeps (λ w. w.now)) (λ now. bind uuid4_keeps (λ sid.
      bind uuid4_keeps (λ id. bind uuid4_keeps (λ id'.
        bind (lift_keeps (create_access_token now user.id sid id)) (λ a.
          bind (lift_keeps (create_refresh_token now user.id sid id'))
            (λ b. stored_keeps user sid id id' a b))))))

  -- The user is loaded, and is there.
  pub with_user_keeps :
      {A : Type 0} (id : ℕ) (e : Exc) (k : User → Action A)
      → ((user : User) → Keeps P (k user))
      → Keeps P (Users.get_active_by_id id >>= λ found. or_raise found e >>= k)
  with_user_keeps id e k hk =
      bind (get_active_by_id_keeps P writes id) (λ found. bind (or_raise_keeps found e) hk)

  pub issue_session_for_user_keeps : (id : ℕ) → Keeps P (Sessions.issue_session_for_user id)
  unfolding Sessions.issue_session_for_user
  issue_session_for_user_keeps id = with_user_keeps id _ _ issue_session_keeps

  publish_keeps : (user : User) → Keeps P (publish_user_registered_event user)
  unfolding publish_user_registered_event publish
  publish_keeps user = reads (λ w. ground arith)

  taken : Exc
  taken = conflict "User with this email already exists"

  register_locked_keeps : (email password : Text) → Keeps P (Service.register_locked email password)
  unfolding Service.register_locked taken
  register_locked_keeps email password =
      bind (gets_keeps (Users.get_active_by_email email)) (λ existing.
        bind (raise_if_keeps (is_some existing) taken) (λ _.
          bind (create_local_user_keeps P writes email password) (λ user.
            bind (issue_session_for_user_keeps user.id)
              (λ result. bind (publish_keeps user) (λ _. pure_keeps result)))))

  release_keeps :
      {A : Type 0} {m : Action A} (e : Exc) (k : Key) (l : ℕ)
      → Keeps P m
      → Keeps P
          (finally (λ w. let (r, w') = m w in (on_duplicate_key e r, w')) (Cache.release_lock k l))
  unfolding Cache.release_lock
  release_keeps e k l hm = record { after = λ w h. hm.after w h }

  register_under_keeps :
      (email password : Text) (l : Option ℕ) → Keeps P (Service.register_under email password l)
  unfolding Service.register_under
  register_under_keeps email password none = reads (λ w. refl)
  register_under_keeps email password (some l) =
      release_keeps _ _ l (register_locked_keeps email password)

  acquire_lock_keeps : (k : Key) (ttl : ℕ) → Keeps P (Cache.acquire_lock k ttl)
  unfolding Cache.acquire_lock uuid4
  acquire_lock_keeps k ttl = reads (λ w. ground arith)

  pub register_keeps : (email password : Text) → Keeps P (Service.register email password)
  unfolding Service.register
  register_keeps email password =
      let email' = strip (lower email) in
      bind (acquire_lock_keeps (Service.register_lock_key email') 30)
        (λ l. register_under_keeps email' password l)

  pub login_keeps : (email password : Text) → Keeps P (Service.login email password)
  unfolding Service.login
  login_keeps email password = record {
    after = λ w h. elim (Option-cases (Users.get_active_by_email email w)) [
      | inl missing ↦ ground arith
      | inr (user, found) ↦ ground (arith, (issue_session_for_user_keeps user.id).after w h)
    ];
  }

  delete_jtis_keeps : (u sid : ℕ) → Keeps P (Sessions.delete_access_jtis_for_session u sid)
  delete_jtis_keeps u sid = reads (λ w. (delete_access_jtis_for_session_frame u sid w).1)

  pub delete_all_jtis_keeps : (u : ℕ) → Keeps P (Sessions.delete_all_access_jtis_for_user u)
  unfolding Sessions.delete_all_access_jtis_for_user Cache.del_by_pattern
  delete_all_jtis_keeps u = reads (λ w. refl)

  abbrev bad_payload : Exc
  bad_payload = unauthorized "Invalid refresh token payload"

  -- The part of `refresh_session` behind the load of the user.
  renewed_keeps :
      (user : User) (sid : ℕ)
      → Keeps P (
          modify (Tokens.revoke_by_session_id sid) >>= λ _.
          Sessions.delete_access_jtis_for_session user.id sid >>= λ _.
          Sessions.issue_session_for_user user.id)
  renewed_keeps user sid =
      bind (writes.revoke_session sid)
        (λ _. bind (delete_jtis_keeps user.id sid) (λ _. issue_session_for_user_keeps user.id))

  pub refresh_session_keeps : (token : Text) → Keeps P (Service.refresh_session token)
  unfolding Service.refresh_session
  refresh_session_keeps token = bind (gets_keeps (λ w. w.now)) (λ now.
      bind (lift_keeps (decode_refresh_token now token)) (λ payload.
        bind (or_raise_keeps (claim_id payload.jti) bad_payload) (λ id.
          bind (or_raise_keeps (claim_id payload.sid) bad_payload) (λ sid.
            bind (or_raise_keeps (claim_id payload.sub) bad_payload) (λ u.
              bind (gets_keeps (Tokens.get_valid_token id (hash_token token) refresh)) (λ found.
                bind (or_raise_keeps found (unauthorized "Refresh token revoked or not found"))
                  (λ _.
                    with_user_keeps u (unauthorized "User not found") (λ user. _)
                      (λ user. renewed_keeps user sid))))))))

  pub logout_current_session_keeps : (sid u : ℕ) → Keeps P (Service.logout_current_session sid u)
  unfolding Service.logout_current_session
  logout_current_session_keeps sid u =
      bind (delete_jtis_keeps u sid) (λ _. writes.revoke_session sid)

  pub logout_all_sessions_keeps : (u : ℕ) → Keeps P (Service.logout_all_sessions u)
  unfolding Service.logout_all_sessions
  logout_all_sessions_keeps u = bind (delete_all_jtis_keeps u) (λ _. writes.revoke_user u)
