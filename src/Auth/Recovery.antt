-- ===== src/Auth/Recovery.antt =====
-- `reset_password`: a reset token works once.
use fastapi_newyear.Base.{
  ℕ, ◌≡◌, ◌≢◌, refl, sym, ap, ◌∙◌, Bool, true, false, not, ◌&&◌, none, some, List, Text, arith,
  ◌==◌, first, update_first, IsUnique, first_spent, Option-cases, inl, inr,
}
use fastapi_newyear.Errors.{ok, err, unauthorized, Result-cases}
use fastapi_newyear.Models.Accounts.{User, PasswordResetToken}
use fastapi_newyear.Env.{Env}
use fastapi_newyear.World.{World}
use fastapi_newyear.Common.Cache
use fastapi_newyear.Common.Passwords.{hash_token, hash_password}
use fastapi_newyear.Users.Repository
use fastapi_newyear.Users.Service
use fastapi_newyear.Users.Service.Frame.{get_active_by_id_frame}
use fastapi_newyear.Auth.Tokens
use fastapi_newyear.Auth.Resets.{usable_token, with_id, used, same_keys, get_valid_token, mark_used}
use fastapi_newyear.Auth.Sessions
use fastapi_newyear.Models.Accounts.{access, refresh}
use fastapi_newyear.Auth.Tokens.Revocation.{revoke_all_for_user_kills}
use fastapi_newyear.Auth.Logout.{
  OnlyOfUser, IsRejected, get_current_auth_refused, refresh_session_refused,
}
use fastapi_newyear.Auth.Service.{reset_password}

module _ ⦃env : Env⦄ where
  update_password_frame :
      (user : User) (password : Text) (w : World)
      → ((Service.update_password user password w).1.db.password_reset_tokens
          ≡ w.db.password_reset_tokens)
        × ((Service.update_password user password w).1.now ≡ w.now)
  unfolding Service.update_password hash_password Repository.update Service.invalidate_profile
      Cache.del_key
  update_password_frame user password w = (ground arith, ground arith)

  same_keys-used : (a b : PasswordResetToken) → same_keys (used a) b ≡ same_keys a b
  unfolding same_keys used
  same_keys-used a b = refl

  resets-mark_used :
      (r : PasswordResetToken) (w : World)
      → (mark_used r w).1.db.password_reset_tokens
        ≡ update_first (with_id r.id) used w.db.password_reset_tokens
  unfolding mark_used
  resets-mark_used r w = ground (
    arith,
    env.mongo.update_one_lem same_keys (with_id r.id) used w.db.password_reset_tokens
        same_keys-used,
  )

  needs_token :
      (token password : Text) (w : World)
      → (reset_password token password w).0 ≡ ok tt
      → get_valid_token (hash_token token) w ≢ none
  unfolding reset_password
  needs_token token password w h = ground arith

  refused_without_token :
      (token password : Text) (w : World)
      → get_valid_token (hash_token token) w ≡ none
      → (reset_password token password w).0 ≡ err (unauthorized "Invalid or expired reset token")
  unfolding reset_password
  refused_without_token token password w missing = ground arith

  -- The user of a reset that succeeds.
  reset_password_user :
      (token password : Text) (r : PasswordResetToken) (w : World)
      → (reset_password token password w).0 ≡ ok tt
      → get_valid_token (hash_token token) w ≡ some r
      → (user : User) × ((Service.get_active_by_id r.user_id w).0 ≡ ok (some user))
  unfolding reset_password
  reset_password_user token password r w h found =
      elim (Result-cases (Service.get_active_by_id r.user_id w).0) [
        | inr (x, e) ↦ ground arith
        | inl (o, e) ↦ elim (Option-cases o) [
          | inl missing ↦ ground arith
          | inr (user, there) ↦ (user, e ∙ ap ok there)
        ]
      ]

  resets-reset_password :
      (token password : Text) (r : PasswordResetToken) (user : User) (w : World)
      → (reset_password token password w).0 ≡ ok tt
      → get_valid_token (hash_token token) w ≡ some r
      → (Service.get_active_by_id r.user_id w).0 ≡ ok (some user)
      → (reset_password token password w).1.db.password_reset_tokens
        ≡ update_first (with_id r.id) used w.db.password_reset_tokens
  unfolding reset_password Sessions.delete_all_access_jtis_for_user Cache.del_by_pattern
      Tokens.revoke_all_for_user
  resets-reset_password token password r user w h found there =
      let v1 : World = (Service.get_active_by_id r.user_id w).1 in
      let v2 : World = (Service.update_password user password v1).1 in
      ground (
        arith,
        (get_active_by_id_frame r.user_id w).db,
        update_password_frame user password v1,
        resets-mark_used r v2,
      )

  -- A reset that succeeds had a valid token, and has marked it as used.
  reset_password_marks :
      (token password : Text) (w : World)
      → (reset_password token password w).0 ≡ ok tt
      → (r : PasswordResetToken) × (get_valid_token (hash_token token) w ≡ some r)
        × ((reset_password token password w).1.db.password_reset_tokens
            ≡ update_first (with_id r.id) used w.db.password_reset_tokens)
  reset_password_marks token password w h =
      elim (Option-cases (get_valid_token (hash_token token) w)) [
        | inl missing ↦ absurd (needs_token token password w h missing)
        | inr (r, found) ↦
            let (user, there) = reset_password_user token password r w h found in
            (r, found, resets-reset_password token password r user w h found there)
      ]

  -- Whether a token is unused, at any time.
  abbrev unused : ℕ → PasswordResetToken → Bool
  unused hash r = hash == r.token_hash && not r.is_used

  usable_unused :
      (now hash : ℕ) (r : PasswordResetToken)
      → usable_token now hash r ≡ true
      → unused hash r ≡ true
  unfolding usable_token
  usable_unused now hash r h = ground arith

  usable_same :
      (now hash : ℕ) (a b : PasswordResetToken)
      → unused hash a ≡ true
      → unused hash b ≡ true
      → same_keys a b ≡ true
  unfolding same_keys
  usable_same now hash a b ha hb = ground arith

  named_same :
      (id : ℕ) (a b : PasswordResetToken)
      → with_id id a ≡ true
      → with_id id b ≡ true
      → same_keys a b ≡ true
  unfolding same_keys with_id
  named_same id a b ha hb = ground arith

  names_itself : (r : PasswordResetToken) → with_id r.id r ≡ true
  unfolding with_id
  names_itself r = ground arith

  used_out : (hash : ℕ) (r : PasswordResetToken) → unused hash (used r) ≡ false
  unfolding used
  used_out hash r = ground arith

  -- Once a token is marked, no token of its digest is valid, at any time.
  spent :
      (now t hash : ℕ) (c : List PasswordResetToken) (r : PasswordResetToken)
      → IsUnique same_keys c
      → first (usable_token now hash) c ≡ some r
      → first (usable_token t hash) (update_first (with_id r.id) used c) ≡ none
  spent now t hash c r unique e =
      first_spent same_keys (usable_token now hash) (usable_token t hash) (unused hash)
        (with_id r.id) used (usable_unused now hash) (usable_unused t hash) (usable_same now hash)
        (named_same r.id) (used_out hash) c r unique e (names_itself r)

  -- A reset token works once: after a reset by it has succeeded, a second one is refused with 401, at any time and
  -- with any password. The ids and digests of the reset tokens differ.
  pub reset_password_once :
      (token password password' : Text) (t : ℕ) (w : World)
      → IsUnique same_keys w.db.password_reset_tokens
      → (reset_password token password w).0 ≡ ok tt
      → (reset_password token password' (record (reset_password token password w).1 { now = t })).0
        ≡ err (unauthorized "Invalid or expired reset token")
  unfolding get_valid_token
  reset_password_once token password password' t w unique h =
      let (r, found, after) = reset_password_marks token password w h in
      let e =
        sym (
          env.mongo.find_one_lem (usable_token w.now (hash_token token)) w.db.password_reset_tokens)
        ∙ found in
      refused_without_token token password' (record (reset_password token password w).1 { now = t })
        (env.mongo.find_one_lem (usable_token t (hash_token token)) _
          ∙ ap (first (usable_token t (hash_token token))) after
          ∙ spent w.now t (hash_token token) w.db.password_reset_tokens r unique e)

  -- The last step of a reset is the revocation of the user's tokens.
  reset_password_revokes :
      (token password : Text) (r : PasswordResetToken) (user : User) (w : World)
      → (reset_password token password w).0 ≡ ok tt
      → get_valid_token (hash_token token) w ≡ some r
      → (Service.get_active_by_id r.user_id w).0 ≡ ok (some user)
      → (v : World) × ((reset_password token password w).1 ≡ Tokens.revoke_all_for_user user.id v)
        × (v.db.session_tokens ≡ w.db.session_tokens)
  unfolding reset_password Sessions.delete_all_access_jtis_for_user Cache.del_by_pattern mark_used
      Service.update_password hash_password Repository.update Service.invalidate_profile
      Cache.del_key
  reset_password_revokes token password r user w h found there =
      let v1 : World = (Service.get_active_by_id r.user_id w).1 in
      let v2 : World = (Service.update_password user password v1).1 in
      let v3 : World = (mark_used r v2).1 in
      (
        (Sessions.delete_all_access_jtis_for_user user.id v3).1,
        ground arith,
        ground (arith, (get_active_by_id_frame r.user_id w).db),
      )

  -- After a reset that succeeds, a session token that is recorded only for its user is rejected at any time: it
  -- authenticates no request and renews no session.
  pub reset_password_rejects :
      (token password old : Text) (t : ℕ) (r : PasswordResetToken) (user : User) (w : World)
      → (reset_password token password w).0 ≡ ok tt
      → get_valid_token (hash_token token) w ≡ some r
      → (Service.get_active_by_id r.user_id w).0 ≡ ok (some user)
      → OnlyOfUser old user.id w
      → IsRejected old (record (reset_password token password w).1 { now = t })
  reset_password_rejects token password old t r user w h found there only =
      let (v, last, same) = reset_password_revokes token password r user w h found there in
      let only' : OnlyOfUser old user.id v = rw same only in
      rw last (
        λ ctx.
            get_current_auth_refused old _ ctx
              (λ id. revoke_all_for_user_kills user.id id (hash_token old) t access v only'),
        λ s.
            refresh_session_refused old _ s
              (λ id. revoke_all_for_user_kills user.id id (hash_token old) t refresh v only'),
      )
