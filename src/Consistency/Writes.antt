-- ===== src/Consistency/Writes.antt =====
-- The writes of the repositories keep the keys apart.
use fastapi_newyear.Base.{ℕ, Text, ◌≡◌, refl, none, some, false, arith}
use fastapi_newyear.Models.Accounts.{User, SessionToken, PasswordResetToken, OAuthState, TokenType}
use fastapi_newyear.Models.Files.{FileRecord}
use fastapi_newyear.Env.{Env}
use fastapi_newyear.Env.Indexes.{IsUnique-insert_one, IsUnique-update_one, IsUnique-update_many}
use fastapi_newyear.World.{uuid4, modify}
use fastapi_newyear.World.Keeps.{Keeps, stored}
use fastapi_newyear.Users.Repository as Users
use fastapi_newyear.Users.Repository.{NewUser}
use fastapi_newyear.Auth.Tokens
use fastapi_newyear.Auth.Resets
use fastapi_newyear.Auth.States
use fastapi_newyear.Storage.Repository as Files
use fastapi_newyear.Storage.Repository.{NewFile}
use fastapi_newyear.Storage.Service.{drop_avatar, user_with_avatar, without_avatar}
use fastapi_newyear.Consistency.Accounts.{AccountWrites}
use fastapi_newyear.Consistency.Files.{FileWrites}
use fastapi_newyear.Consistency.Keys.{
  IsConsistent, user_keys_sym, token_keys_sym, reset_keys_sym, state_keys_sym, file_keys_sym,
  with_users, with_session_tokens, with_password_reset_tokens, with_oauth_states, with_files,
}

revoked_keys :
    (now : ℕ) (a b : SessionToken)
    → Tokens.same_keys (Tokens.revoked now a) b ≡ Tokens.same_keys a b
unfolding Tokens.same_keys Tokens.revoked
revoked_keys now a b = refl

used_keys : (a b : PasswordResetToken) → Resets.same_keys (Resets.used a) b ≡ Resets.same_keys a b
unfolding Resets.same_keys Resets.used
used_keys a b = refl

module _ ⦃env : Env⦄ where
  create_user_keeps : (v : NewUser) → Keeps IsConsistent (Users.create v)
  unfolding Users.create uuid4
  create_user_keeps v =
      stored
        (λ w.
          env.mongo.insert_one Users.same_keys (Users.new_user (env.uuid4 w.drawn) w.now v)
            w.db.users)
        (λ c d. record d { users = c }) (λ w e. ground arith) (λ w c e. ground arith)
        (λ w c h e.
          with_users w.db h c
            (IsUnique-insert_one env.mongo Users.same_keys user_keys_sym _ _ _ h.users e))

  update_user_keeps : (id : ℕ) (f : User → User) → Keeps IsConsistent (Users.update id f)
  unfolding Users.update
  update_user_keeps id f =
      stored
        (λ w.
          env.mongo.update_one Users.same_keys (Users.with_id id)
            (λ u. record (f u) { updated_at = some w.now }) w.db.users)
        (λ c d. record d { users = c }) (λ w e. ground arith) (λ w c e. ground arith)
        (λ w c h e.
          with_users w.db h c
            (IsUnique-update_one env.mongo Users.same_keys user_keys_sym _ _ _ _ h.users e))

  create_token_keeps :
      (id sid u : ℕ) (ty : TokenType) (hash e : ℕ)
      → Keeps IsConsistent (Tokens.create_token id sid u ty hash e)
  unfolding Tokens.create_token
  create_token_keeps id sid u ty hash e =
      stored
        (λ w.
          env.mongo.insert_one Tokens.same_keys
            (record {
              id = id;
              session_id = sid;
              user_id = u;
              token_type = ty;
              token_hash = hash;
              expires_at = e;
              is_revoked = false;
              created_at = w.now;
              revoked_at = none;
            })
            w.db.session_tokens)
        (λ c d. record d { session_tokens = c }) (λ w e. ground arith) (λ w c e. ground arith)
        (λ w c h e.
          with_session_tokens w.db h c (
            IsUnique-insert_one env.mongo Tokens.same_keys token_keys_sym _ _ _ h.session_tokens e))

  create_reset_keeps : (u hash e : ℕ) → Keeps IsConsistent (Resets.create u hash e)
  unfolding Resets.create uuid4
  create_reset_keeps u hash e =
      stored
        (λ w.
          env.mongo.insert_one Resets.same_keys
            (record {
              id = env.uuid4 w.drawn;
              user_id = u;
              token_hash = hash;
              expires_at = e;
              is_used = false;
              created_at = w.now;
            })
            w.db.password_reset_tokens)
        (λ c d. record d { password_reset_tokens = c }) (λ w e. ground arith)
        (λ w c e. ground arith)
        (λ w c h e. with_password_reset_tokens w.db h c (
          IsUnique-insert_one env.mongo Resets.same_keys reset_keys_sym _ _ _
            h.password_reset_tokens e))

  use_reset_keeps : (t : PasswordResetToken) → Keeps IsConsistent (Resets.mark_used t)
  unfolding Resets.mark_used
  use_reset_keeps t =
      stored
        (λ w.
          env.mongo.update_one Resets.same_keys (Resets.with_id t.id) Resets.used
            w.db.password_reset_tokens)
        (λ c d. record d { password_reset_tokens = c }) (λ w e. ground arith)
        (λ w c e. ground arith)
        (λ w c h e. with_password_reset_tokens w.db h c (
          IsUnique-update_one env.mongo Resets.same_keys reset_keys_sym _ _ _ _
            h.password_reset_tokens e))

  create_state_keeps : (p : Text) (hash e : ℕ) → Keeps IsConsistent (States.create p hash e)
  unfolding States.create uuid4
  create_state_keeps p hash e =
      stored
        (λ w.
          env.mongo.insert_one States.same_keys
            (record {
              id = env.uuid4 w.drawn;
              provider = p;
              state_hash = hash;
              expires_at = e;
              is_used = false;
              created_at = w.now;
            })
            w.db.oauth_states)
        (λ c d. record d { oauth_states = c }) (λ w e. ground arith) (λ w c e. ground arith)
        (λ w c h e.
          with_oauth_states w.db h c
            (IsUnique-insert_one env.mongo States.same_keys state_keys_sym _ _ _ h.oauth_states e))

  use_state_keeps : (s : OAuthState) → Keeps IsConsistent (States.mark_used s)
  unfolding States.mark_used
  use_state_keeps s =
      stored
        (λ w.
          env.mongo.update_one States.same_keys (States.with_id s.id) States.used w.db.oauth_states)
        (λ c d. record d { oauth_states = c }) (λ w e. ground arith) (λ w c e. ground arith)
        (λ w c h e.
          with_oauth_states w.db h c (
            IsUnique-update_one env.mongo States.same_keys state_keys_sym _ _ _ _ h.oauth_states e))

  create_file_keeps : (v : NewFile) → Keeps IsConsistent (Files.create v)
  unfolding Files.create
  create_file_keeps v =
      stored (λ w. env.mongo.insert_one Files.same_keys (Files.new_file w.now v) w.db.files)
        (λ c d. record d { files = c }) (λ w e. ground arith) (λ w c e. ground arith)
        (λ w c h e.
          with_files w.db h c
            (IsUnique-insert_one env.mongo Files.same_keys file_keys_sym _ _ _ h.files e))

  delete_file_keeps : (f : FileRecord) → Keeps IsConsistent (Files.soft_delete f)
  unfolding Files.soft_delete
  delete_file_keeps f =
      stored
        (λ w.
          env.mongo.update_one Files.same_keys (Files.with_id f.id) (Files.deleted w.now)
            w.db.files)
        (λ c d. record d { files = c }) (λ w e. ground arith) (λ w c e. ground arith)
        (λ w c h e.
          with_files w.db h c
            (IsUnique-update_one env.mongo Files.same_keys file_keys_sym _ _ _ _ h.files e))

  drop_avatar_keeps : (file_id u : ℕ) → Keeps IsConsistent (drop_avatar file_id u)
  unfolding drop_avatar
  drop_avatar_keeps file_id u =
      stored
        (λ w.
          env.mongo.update_one Users.same_keys (user_with_avatar u file_id) without_avatar
            w.db.users)
        (λ c d. record d { users = c }) (λ w e. ground arith) (λ w c e. ground arith)
        (λ w c h e.
          with_users w.db h c
            (IsUnique-update_one env.mongo Users.same_keys user_keys_sym _ _ _ _ h.users e))

  revoke_session_keeps : (sid : ℕ) → Keeps IsConsistent (modify (Tokens.revoke_by_session_id sid))
  unfolding Tokens.revoke_by_session_id
  revoke_session_keeps sid = record {
    after = λ w h. with_session_tokens w.db h _ (
        IsUnique-update_many env.mongo Tokens.same_keys token_keys_sym _ _ _ (revoked_keys w.now)
          h.session_tokens);
  }

  revoke_user_keeps : (u : ℕ) → Keeps IsConsistent (modify (Tokens.revoke_all_for_user u))
  unfolding Tokens.revoke_all_for_user
  revoke_user_keeps u = record {
    after = λ w h. with_session_tokens w.db h _ (
        IsUnique-update_many env.mongo Tokens.same_keys token_keys_sym _ _ _ (revoked_keys w.now)
          h.session_tokens);
  }

  use_resets_keeps : (u : ℕ) → Keeps IsConsistent (modify (Resets.mark_all_used_for_user u))
  unfolding Resets.mark_all_used_for_user
  use_resets_keeps u = record {
    after = λ w h. with_password_reset_tokens w.db h _ (
        IsUnique-update_many env.mongo Resets.same_keys reset_keys_sym _ _ _ (used_keys)
          h.password_reset_tokens);
  }

  -- What `Consistency/Accounts.antt` and `Consistency/Files.antt` ask for.
  pub account_writes : AccountWrites IsConsistent
  account_writes = record {
    create_user = create_user_keeps;
    update_user = update_user_keeps;
    create_token = create_token_keeps;
    revoke_session = revoke_session_keeps;
    revoke_user = revoke_user_keeps;
    create_reset = create_reset_keeps;
    use_reset = use_reset_keeps;
    use_resets = use_resets_keeps;
    create_state = create_state_keeps;
    use_state = use_state_keeps;
  }

  pub file_writes : FileWrites IsConsistent
  file_writes = record {
    create_file = create_file_keeps;
    delete_file = delete_file_keeps;
    drop_avatar = drop_avatar_keeps;
  }
