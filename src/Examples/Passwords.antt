-- ===== src/Examples/Passwords.antt =====
-- Witnesses of the theorems on logins and resets of passwords.
use fastapi_newyear.Base.{
  ℕ, ◌≡◌, refl, true, false, none, some, [], ◌∷◌, ◌++◌, Text, arith, codes, lower, strip, first,
  has, text_eq, IsUnique,
}
use fastapi_newyear.Errors.{ok, err, unauthorized}
use fastapi_newyear.Models.Accounts.{User, PasswordResetToken}
use fastapi_newyear.Common.Cache
use fastapi_newyear.Common.Passwords.{hash_token, verify_password}
use fastapi_newyear.Users.Service
use fastapi_newyear.Users.Service.{get_active_by_email, create_local_user}
use fastapi_newyear.World.{World, Db}
use fastapi_newyear.Auth.Resets
use fastapi_newyear.Auth.Resets.{same_keys}
use fastapi_newyear.Auth.Sessions.{issue_session_for_user}
use fastapi_newyear.Auth.Service.{
  login, nonempty, forgot_password, instruction_sent, reset_password,
}
use fastapi_newyear.Auth.Logout.{IsRejected}
use fastapi_newyear.Auth.Recovery.{reset_password_once, reset_password_rejects}
use fastapi_newyear.Auth.Login.{login_sound, forgot_password_answer, login-create_local_user}
use fastapi_newyear.Models.Accounts.{OAuthState}
use fastapi_newyear.Auth.States
use fastapi_newyear.Auth.Service.{handle_oauth_callback}
use fastapi_newyear.Auth.Callback.{handle_oauth_callback_once}
use fastapi_newyear.Examples.Environment.{env, empty_world, digest}
use fastapi_newyear.Examples.Accounts.{frost, signed_in, signed_in_db, access_token}
use fastapi_newyear.Examples.Sessions.{renewed}

abbrev reset_record : PasswordResetToken
reset_record = record {
  id = 501;
  user_id = 103;
  token_hash = digest (codes "reset");
  expires_at = 2800000000;
  is_used = false;
  created_at = 1000000000;
}

abbrev forgetful_db : Db
forgetful_db = record signed_in_db { password_reset_tokens = reset_record ∷ [] }

abbrev forgetful : World
forgetful = record signed_in { db = forgetful_db }

forgetful-IsUnique : IsUnique same_keys forgetful.db.password_reset_tokens
unfolding has
forgetful-IsUnique = (refl, tt)

resets : (reset_password (codes "reset") (codes "Spring2027") forgetful).0 ≡ ok tt
unfolding reset_password Resets.get_valid_token first Resets.usable_token hash_token
    Service.get_active_by_id Cache.get fastapi_newyear.Common.Cache.Client.get
    fastapi_newyear.Examples.Keys.get Service.profile_cache_key Cache.key text_eq
    fastapi_newyear.Users.Repository.get_active_by_id fastapi_newyear.Users.Repository.by_id
    Service.cache_public_profile Service.public_profile Cache.set Service.update_password
    fastapi_newyear.Common.Passwords.hash_password fastapi_newyear.Users.Repository.update
    Service.invalidate_profile Cache.del_key Resets.mark_used
    fastapi_newyear.Auth.Sessions.delete_all_access_jtis_for_user Cache.del_by_pattern
    fastapi_newyear.Examples.Lists.update_unique fastapi_newyear.Users.Repository.with_id has
    fastapi_newyear.Users.Repository.same_keys Resets.with_id same_keys Resets.used
resets = refl

reset_found : Resets.get_valid_token (hash_token (codes "reset")) forgetful ≡ some reset_record
unfolding Resets.get_valid_token hash_token first Resets.usable_token
reset_found = refl

reset_user : (Service.get_active_by_id 103 forgetful).0 ≡ ok (some frost)
unfolding Service.get_active_by_id Cache.get fastapi_newyear.Common.Cache.Client.get
    fastapi_newyear.Examples.Keys.get Service.profile_cache_key Cache.key text_eq
    fastapi_newyear.Users.Repository.get_active_by_id first fastapi_newyear.Users.Repository.by_id
    Service.cache_public_profile Service.public_profile Cache.set
reset_user = refl

reset_once_example :
    (reset_password
      (codes "reset")
      (codes "Autumn2027")
      (record (reset_password (codes "reset") (codes "Spring2027") forgetful).1 {
        now = 1000000005;
      })).0
    ≡ err (unauthorized "Invalid or expired reset token")
reset_once_example =
    reset_password_once (codes "reset") (codes "Spring2027") (codes "Autumn2027") 1000000005
      forgetful forgetful-IsUnique resets

reset_rejects_example :
    IsRejected access_token
      (record (reset_password (codes "reset") (codes "Spring2027") forgetful).1 {
        now = 1000000005;
      })
unfolding hash_token
reset_rejects_example =
    reset_password_rejects (codes "reset") (codes "Spring2027") access_token 1000000005 reset_record
      frost forgetful resets reset_found reset_user
      (λ _. refl, (λ _. refl, (λ h. ground arith, tt)))

logs_in : (login (codes "a@x") (codes "Winter2026") signed_in).0 ≡ ok renewed
unfolding login get_active_by_email fastapi_newyear.Users.Repository.get_active_by_email first
    fastapi_newyear.Users.Repository.by_email text_eq strip lower nonempty verify_password
    issue_session_for_user Service.get_active_by_id Cache.get
    fastapi_newyear.Common.Cache.Client.get fastapi_newyear.Examples.Keys.get
    Service.profile_cache_key Cache.key fastapi_newyear.Users.Repository.get_active_by_id
    fastapi_newyear.Users.Repository.by_id Service.cache_public_profile Service.public_profile
    Cache.set fastapi_newyear.Auth.Sessions.issue_session fastapi_newyear.World.uuid4
    fastapi_newyear.Common.Jwt.create_access_token fastapi_newyear.Config.access_ttl
    fastapi_newyear.Common.Jwt.create_refresh_token fastapi_newyear.Config.refresh_ttl
    fastapi_newyear.Auth.Tokens.create_token has fastapi_newyear.Auth.Tokens.same_keys hash_token
    fastapi_newyear.Common.Jwt.claims fastapi_newyear.Auth.Sessions.store_access_jti
logs_in = refl

login_example :
    (user : User) × (hash : Text) × (salt : Text) × (get_active_by_email (codes "a@x") signed_in
      ≡ some user)
    × (nonempty user.password_hash ≡ some hash)
    × (nonempty user.password_salt ≡ some salt)
    × (verify_password (codes "Winter2026") salt hash ≡ true)
    × (login (codes "a@x") (codes "Winter2026") signed_in
        ≡ issue_session_for_user user.id signed_in)
login_example = login_sound (codes "a@x") (codes "Winter2026") renewed signed_in logs_in

forgets : (forgot_password (codes "a@x") signed_in).0 ≡ ok instruction_sent
unfolding forgot_password get_active_by_email fastapi_newyear.Users.Repository.get_active_by_email
    first fastapi_newyear.Users.Repository.by_email text_eq strip lower
    fastapi_newyear.Common.Passwords.generate_random_token Resets.create has
    Resets.mark_all_used_for_user fastapi_newyear.Base.update_all
forgets = refl

forgot_example : instruction_sent ≡ instruction_sent
forgot_example = forgot_password_answer (codes "a@x") instruction_sent signed_in refl forgets

abbrev newcomer : User
newcomer = record frost {
  id = 102;
  password_hash = some (codes "$Winter2026" ++ 0 ∷ []);
  password_salt = some (0 ∷ []);
}

stores : (create_local_user (codes "a@x") (codes "Winter2026") empty_world).0 ≡ ok newcomer
unfolding create_local_user fastapi_newyear.Common.Passwords.hash_password
    fastapi_newyear.Users.Repository.create has Service.cache_public_profile Service.public_profile
    Cache.set fastapi_newyear.Users.Repository.new_user strip lower
stores = refl

newcomer_example :
    login
      (codes " A@X ")
      (codes "Winter2026")
      (create_local_user (codes "a@x") (codes "Winter2026") empty_world).1
    ≡ issue_session_for_user 102
        (create_local_user (codes "a@x") (codes "Winter2026") empty_world).1
unfolding strip lower
newcomer_example =
    login-create_local_user (codes "a@x") (codes " A@X ") (codes "Winter2026") newcomer empty_world
      refl stores

abbrev pending : OAuthState
pending = record {
  id = 601;
  provider = codes "yandex";
  state_hash = digest (codes "state");
  expires_at = 1600000000;
  is_used = false;
  created_at = 1000000000;
}

abbrev waiting_db : Db
waiting_db = record signed_in_db { oauth_states = pending ∷ [] }

abbrev waiting : World
waiting = record signed_in { db = waiting_db }

state_found :
    States.get_valid_state (codes "yandex") (hash_token (codes "state")) waiting ≡ some pending
unfolding States.get_valid_state hash_token first States.usable_state text_eq
state_found = refl

waiting-IsUnique : IsUnique States.same_keys waiting.db.oauth_states
unfolding has
waiting-IsUnique = (refl, tt)

callback_example :
    (handle_oauth_callback
      (codes "yandex")
      (codes "other")
      (codes "state")
      (record (handle_oauth_callback (codes "yandex") (codes "code") (codes "state") waiting).1 {
        now = 1000000005;
      })).0
    ≡ err (unauthorized "Invalid or expired OAuth state")
callback_example =
    handle_oauth_callback_once (codes "code") (codes "other") (codes "state") 1000000005 pending
      waiting waiting-IsUnique state_found
