-- ===== src/Auth/Callback.antt =====
-- `handle_oauth_callback`: a state works once.
use fastapi_newyear.Base.{
  ℕ, ◌≡◌, refl, sym, ap, ◌∙◌, Bool, true, false, not, ◌&&◌, Option, none, some, Text, arith, ◌==◌,
  text_eq, codes, first, update_first, IsUnique, first_spent, strip, lower, Option-cases, inl, inr,
}
use fastapi_newyear.Errors.{err, unauthorized, Result-cases}
use fastapi_newyear.Models.Accounts.{User, OAuthState}
use fastapi_newyear.Env.{Env}
use fastapi_newyear.World.{World, uuid4}
use fastapi_newyear.Common.Cache
use fastapi_newyear.Common.Passwords.{hash_token}
use fastapi_newyear.Users.Repository
use fastapi_newyear.Users.Service
use fastapi_newyear.Users.Service.Frame.{get_active_by_id_frame}
use fastapi_newyear.Auth.Tokens
use fastapi_newyear.Auth.States.{usable_state, with_id, used, same_keys, get_valid_state, mark_used}
use fastapi_newyear.Auth.Yandex
use fastapi_newyear.Auth.Sessions
use fastapi_newyear.Auth.Sessions.{issue_session, issue_session_for_user}
use fastapi_newyear.Auth.Service.{handle_oauth_callback, oauth_account}

module _ ⦃env : Env⦄ where
  same_keys-used : (a b : OAuthState) → same_keys (used a) b ≡ same_keys a b
  unfolding same_keys used
  same_keys-used a b = refl

  states-mark_used :
      (s : OAuthState) (w : World)
      → (mark_used s w).1.db.oauth_states ≡ update_first (with_id s.id) used w.db.oauth_states
  unfolding mark_used
  states-mark_used s w = ground (
    arith,
    env.mongo.update_one_lem same_keys (with_id s.id) used w.db.oauth_states same_keys-used,
  )

  states-issue_session :
      (user : User) (w : World) → (issue_session user w).1.db.oauth_states ≡ w.db.oauth_states
  unfolding issue_session uuid4 Tokens.create_token Sessions.store_access_jti Cache.set
  states-issue_session user w = ground arith

  states-issue_session_for_user :
      (u : ℕ) (w : World) → (issue_session_for_user u w).1.db.oauth_states ≡ w.db.oauth_states
  unfolding issue_session_for_user
  states-issue_session_for_user u w =
      let v : World = (Service.get_active_by_id u w).1 in
      let frame = (get_active_by_id_frame u w).db in
      elim (Result-cases (Service.get_active_by_id u w).0) [
        | inr (x, e) ↦ ground arith
        | inl (o, e) ↦ elim (Option-cases o) [
          | inl missing ↦ ground arith
          | inr (user, there) ↦ ground (arith, states-issue_session user v)
        ]
      ]

  states-oauth_account :
      (email yandex_id : Text) (o : Option User) (w : World)
      → (oauth_account email yandex_id o w).1.db.oauth_states ≡ w.db.oauth_states
  unfolding oauth_account Service.create_oauth_user Service.link_yandex_account Repository.create
      Repository.update uuid4 Service.cache_public_profile Service.invalidate_profile Cache.set
      Cache.del_key
  states-oauth_account email yandex_id none w = ground arith
  states-oauth_account email yandex_id (some user) w = ground arith

  -- A callback with a valid state goes on from the state marked as used.
  states-handle_oauth_callback :
      (code state : Text) (s : OAuthState) (w : World)
      → get_valid_state (codes "yandex") (hash_token state) w ≡ some s
      → (handle_oauth_callback (codes "yandex") code state w).1.db.oauth_states
        ≡ update_first (with_id s.id) used w.db.oauth_states
  unfolding handle_oauth_callback text_eq
  states-handle_oauth_callback code state s w found =
      let w1 : World = (mark_used s w).1 in
      let marked = states-mark_used s w in
      elim (Result-cases (Yandex.exchange_code code)) [
        | inr (x, e) ↦ ground arith
        | inl (tok, e) ↦ elim (Result-cases (Yandex.fetch_user_info tok)) [
          | inr (x, e2) ↦ ground arith
          | inl (profile, e2) ↦ elim (Option-cases (Service.get_by_yandex_id profile.0 w1)) [
            | inr (user, linked) ↦ ground (arith, states-issue_session_for_user user.id w1)
            | inl new ↦
                let email = strip (lower profile.1) in
                let o = Service.get_active_by_email email w1 in
                let v : World = (oauth_account email profile.0 o w1).1 in
                let kept = states-oauth_account email profile.0 o w1 in
                elim (Result-cases (oauth_account email profile.0 o w1).0) [
                  | inr (x, e3) ↦ ground arith
                  | inl (o2, e3) ↦ elim (Option-cases o2) [
                    | inl missing ↦ ground arith
                    | inr (user, there) ↦ ground (arith, states-issue_session_for_user user.id v)
                  ]
                ]
          ]
        ]
      ]

  -- Whether a state is unused, at any time.
  abbrev unused : ℕ → OAuthState → Bool
  unused hash s = hash == s.state_hash && not s.is_used

  usable_unused :
      (now : ℕ) (provider : Text) (hash : ℕ) (s : OAuthState)
      → usable_state now provider hash s ≡ true
      → unused hash s ≡ true
  unfolding usable_state
  usable_unused now provider hash s h = ground arith

  unused_same :
      (hash : ℕ) (a b : OAuthState)
      → unused hash a ≡ true
      → unused hash b ≡ true
      → same_keys a b ≡ true
  unfolding same_keys
  unused_same hash a b ha hb = ground arith

  named_same :
      (id : ℕ) (a b : OAuthState) → with_id id a ≡ true → with_id id b ≡ true → same_keys a b ≡ true
  unfolding same_keys with_id
  named_same id a b ha hb = ground arith

  names_itself : (s : OAuthState) → with_id s.id s ≡ true
  unfolding with_id
  names_itself s = ground arith

  used_out : (hash : ℕ) (s : OAuthState) → unused hash (used s) ≡ false
  unfolding used
  used_out hash s = ground arith

  refused_without_state :
      (code state : Text) (w : World)
      → get_valid_state (codes "yandex") (hash_token state) w ≡ none
      → (handle_oauth_callback (codes "yandex") code state w).0
        ≡ err (unauthorized "Invalid or expired OAuth state")
  unfolding handle_oauth_callback text_eq
  refused_without_state code state w missing = ground arith

  -- A state works once: after a callback with a valid state, whatever came of it, a second callback with that state is refused
  -- with 401, at any time and with any code. The ids and digests of the states differ.
  pub handle_oauth_callback_once :
      (code code' state : Text) (t : ℕ) (s : OAuthState) (w : World)
      → IsUnique same_keys w.db.oauth_states
      → get_valid_state (codes "yandex") (hash_token state) w ≡ some s
      → (handle_oauth_callback
          (codes "yandex")
          code'
          state
          (record (handle_oauth_callback (codes "yandex") code state w).1 { now = t })).0
        ≡ err (unauthorized "Invalid or expired OAuth state")
  unfolding get_valid_state
  handle_oauth_callback_once code code' state t s w unique found =
      let hash = hash_token state in
      let p = usable_state w.now (codes "yandex") hash in
      let later = usable_state t (codes "yandex") hash in
      refused_without_state code' state
        (record (handle_oauth_callback (codes "yandex") code state w).1 { now = t })
        (env.mongo.find_one_lem later _
          ∙ ap (first later) (states-handle_oauth_callback code state s w found)
          ∙ first_spent same_keys p later (unused hash) (with_id s.id) used
              (usable_unused w.now (codes "yandex") hash) (usable_unused t (codes "yandex") hash)
              (unused_same hash) (named_same s.id) (used_out hash) w.db.oauth_states s unique
              (sym (env.mongo.find_one_lem p w.db.oauth_states) ∙ found) (names_itself s))
