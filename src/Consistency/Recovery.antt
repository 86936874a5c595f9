-- ===== src/Consistency/Recovery.antt =====
-- The resets of passwords and the OAuth callback (App/modules/auth/service.py) keep what the writes to
-- their collections keep.
use fastapi_newyear.Base.{
  ◌+◌, if◌then◌else◌, not, codes, text_eq, strip, lower, Text, Option, none, some, refl,
}
use fastapi_newyear.Errors.{Exc, unauthorized, not_found, other_error}
use fastapi_newyear.Models.Accounts.{User, PasswordResetToken}
use fastapi_newyear.Config.{reset_password_ttl, oauth_state_ttl}
use fastapi_newyear.Env.{Env}
use fastapi_newyear.World.{Db, ◌>>=◌, gets, or_raise, modify, token_urlsafe}
use fastapi_newyear.World.Keeps.{
  Keeps, bind, reads, pure_keeps, gets_keeps, lift_keeps, or_raise_keeps, raise_if_keeps,
}
use fastapi_newyear.Common.Passwords.{hash_token, generate_random_token, generate_state}
use fastapi_newyear.Users.Service as Users
use fastapi_newyear.Auth.Tokens
use fastapi_newyear.Auth.Resets
use fastapi_newyear.Auth.States
use fastapi_newyear.Auth.Yandex
use fastapi_newyear.Auth.Sessions
use fastapi_newyear.Auth.Sessions.{AuthSessionResultDto}
use fastapi_newyear.Auth.Service
use fastapi_newyear.Auth.Service.{claim_id, instruction_sent}
use fastapi_newyear.Consistency.Accounts.{
  AccountWrites, create_oauth_user_keeps, link_yandex_account_keeps, update_password_keeps,
}
use fastapi_newyear.Consistency.Sessions.{
  issue_session_for_user_keeps, with_user_keeps, delete_all_jtis_keeps,
}

module _ ⦃env : Env⦄ (P : Db → Type 0) (writes : AccountWrites P) where
  token_keeps : Keeps P generate_random_token
  unfolding generate_random_token token_urlsafe
  token_keeps = reads (λ w. refl)

  send_reset_keeps : (o : Option User) → Keeps P (Service.send_reset o)
  unfolding Service.send_reset
  send_reset_keeps none = pure_keeps _
  send_reset_keeps (some user) = bind token_keeps (λ token. bind (writes.use_resets user.id) (λ _.
      bind (gets_keeps (λ w. w.now)) (λ now.
        bind
          (writes.create_reset user.id (hash_token token) (now + reset_password_ttl env.settings))
          (λ _. pure_keeps (
            if env.settings.auth_debug_return_reset_token
            then record { message = "Reset token generated"; reset_token = some token }
            else instruction_sent)))))

  pub forgot_password_keeps : (email : Text) → Keeps P (Service.forgot_password email)
  unfolding Service.forgot_password
  forgot_password_keeps email = bind (gets_keeps (Users.get_active_by_email email)) send_reset_keeps

  -- The part of `reset_password` behind the load of the user.
  reset_keeps :
      (reset : PasswordResetToken) (user : User) (password : Text)
      → Keeps P (
          Users.update_password user password >>= λ _. Resets.mark_used reset >>= λ _.
          Sessions.delete_all_access_jtis_for_user user.id >>= λ _.
          modify (Tokens.revoke_all_for_user user.id))
  reset_keeps reset user password = bind (update_password_keeps P writes user password) (λ _.
      bind (writes.use_reset reset)
        (λ _. bind (delete_all_jtis_keeps P writes user.id) (λ _. writes.revoke_user user.id)))

  pub reset_password_keeps :
      (token password : Text) → Keeps P (Service.reset_password token password)
  unfolding Service.reset_password
  reset_password_keeps token password =
      bind (gets_keeps (Resets.get_valid_token (hash_token token))) (λ found.
        bind (or_raise_keeps found (unauthorized "Invalid or expired reset token")) (λ reset.
          with_user_keeps P writes reset.user_id (not_found "User not found") (λ user. _)
            (λ user. reset_keeps reset user password)))

  state_keeps : Keeps P generate_state
  unfolding generate_state token_urlsafe
  state_keeps = reads (λ w. refl)

  abbrev other_provider : Exc
  other_provider = not_found "OAuth provider not supported"

  pub get_oauth_redirect_url_keeps : (p : Text) → Keeps P (Service.get_oauth_redirect_url p)
  unfolding Service.get_oauth_redirect_url
  get_oauth_redirect_url_keeps p =
      bind (raise_if_keeps (not (text_eq p (codes "yandex"))) other_provider) (λ _.
        bind state_keeps (λ state. bind (gets_keeps (λ w. w.now)) (λ now.
          bind (writes.create_state p (hash_token state) (now + oauth_state_ttl env.settings))
            (λ _. lift_keeps (Yandex.build_authorize_url state)))))

  oauth_account_keeps :
      (email id : Text) (o : Option User) → Keeps P (Service.oauth_account email id o)
  unfolding Service.oauth_account
  oauth_account_keeps email id none =
      bind (create_oauth_user_keeps P writes email id) (λ user. pure_keeps _)
  oauth_account_keeps email id (some user) = link_yandex_account_keeps P writes user id

  oauth_user_keeps : (email id : Text) (o : Option User) → Keeps P (Service.oauth_user email id o)
  unfolding Service.oauth_user
  oauth_user_keeps email id (some user) = pure_keeps _
  oauth_user_keeps email id none =
      bind (gets_keeps (Users.get_active_by_email email)) (oauth_account_keeps email id)

  -- The part of `handle_oauth_callback` behind the provider's answers.
  let_in :
      (id email : Text)
      → Keeps P (
          gets (Users.get_by_yandex_id id) >>= λ linked.
          Service.oauth_user (strip (lower email)) id linked >>= λ found.
          or_raise found other_error >>= λ user. Sessions.issue_session_for_user user.id)
  let_in id email = bind (gets_keeps (Users.get_by_yandex_id id)) (λ linked.
      bind (oauth_user_keeps (strip (lower email)) id linked) (λ found.
        bind (or_raise_keeps found other_error)
          (λ user. issue_session_for_user_keeps P writes user.id)))

  pub handle_oauth_callback_keeps :
      (p code state : Text) → Keeps P (Service.handle_oauth_callback p code state)
  unfolding Service.handle_oauth_callback
  handle_oauth_callback_keeps p code state =
      bind (raise_if_keeps (not (text_eq p (codes "yandex"))) other_provider) (λ _.
        bind (gets_keeps (States.get_valid_state p (hash_token state))) (λ found.
          bind (or_raise_keeps found (unauthorized "Invalid or expired OAuth state")) (λ s.
            bind (writes.use_state s) (λ _.
              bind (lift_keeps (Yandex.exchange_code code))
                (λ t. bind (lift_keeps (Yandex.fetch_user_info t)) (λ q. let_in q.0 q.1))))))
