-- ===== src/Auth/Login.antt =====
-- `login`, `forgot_password` and `register`: who is let in, and what an answer gives away.
use fastapi_newyear.Base.{
  ◌+◌, ◌≡◌, ◌≢◌, refl, sym, ap, ◌∙◌, true, false, none, some, List, [], ◌∷◌, ◌++◌, Text, arith,
  first, has, lower, strip, first-append, has_less, has-first, text_eq_refl, Option-cases,
  Bool-cases, inl, inr,
}
use fastapi_newyear.Errors.{Result, ok}
use fastapi_newyear.Models.Accounts.{User}
use fastapi_newyear.Env.{Env}
use fastapi_newyear.World.{World, token_hex, uuid4}
use fastapi_newyear.Common.Cache
use fastapi_newyear.Common.Passwords.{hash_password, verify_password, verify-hash_password}
use fastapi_newyear.Users.Repository
use fastapi_newyear.Users.Repository.{by_email, new_user, same_keys}
use fastapi_newyear.Users.Service
use fastapi_newyear.Users.Service.{get_active_by_email, create_local_user}
use fastapi_newyear.Auth.Resets
use fastapi_newyear.Auth.Sessions.{AuthSessionResultDto, issue_session_for_user}
use fastapi_newyear.Auth.Service.{
  login, nonempty, forgot_password, ForgotPasswordResponseDto, instruction_sent,
}

module _ ⦃env : Env⦄ where
  -- A login that succeeds found an active account under the address whose stored hash and salt, both not empty, verify
  -- the password; and it issued the session for that account.
  pub login_sound :
      (email password : Text) (r : AuthSessionResultDto) (w : World)
      → (login email password w).0 ≡ ok r
      → (user : User) × (hash : Text) × (salt : Text) × (get_active_by_email email w ≡ some user)
        × (nonempty user.password_hash ≡ some hash)
        × (nonempty user.password_salt ≡ some salt)
        × (verify_password password salt hash ≡ true)
        × (login email password w ≡ issue_session_for_user user.id w)
  unfolding login
  login_sound email password r w h = elim (Option-cases (get_active_by_email email w)) [
    | inl missing ↦ ground arith
    | inr (user, found) ↦ elim (Option-cases (nonempty user.password_hash)) [
      | inl missing ↦ ground arith
      | inr (hash, h1) ↦ elim (Option-cases (nonempty user.password_salt)) [
        | inl missing ↦ ground arith
        | inr (salt, h2) ↦ elim (Bool-cases (verify_password password salt hash)) [
          | inr wrong ↦ ground arith
          | inl right ↦ (user, hash, salt, found, h1, h2, right, ground arith)
        ]
      ]
    ]
  ]

  -- Unless the debugging setting is on, the answer to a forgotten password is the same for every address, with an
  -- account or without one, and holds no token.
  pub forgot_password_answer :
      (email : Text) (r : ForgotPasswordResponseDto) (w : World)
      → env.settings.auth_debug_return_reset_token ≡ false
      → (forgot_password email w).0 ≡ ok r
      → r ≡ instruction_sent
  unfolding forgot_password Resets.create
  forgot_password_answer email r w quiet h = ground arith

  -- The account that a registration stores.
  stored_user :
      (email password : Text) (user : User) (w : World)
      → (create_local_user email password w).0 ≡ ok user
      → (hash : Text) × (salt : Text) × (v : World) × ((hash_password password w)
          ≡ (ok (hash, salt), v))
        × (user.email ≡ strip (lower email))
        × (user.deleted_at ≡ none)
        × (user.password_hash ≡ some hash)
        × (user.password_salt ≡ some salt)
        × (has (same_keys user) w.db.users ≡ false)
        × ((create_local_user email password w).1.db.users ≡ w.db.users ++ user ∷ [])
  unfolding create_local_user Repository.create hash_password token_hex uuid4 new_user
      Service.cache_public_profile Cache.set
  stored_user email password user w h =
      let salt = env.token_hex w.drawn in
      let hash = env.bcrypt.hashpw (w.drawn + 1) (password ++ salt) in
      let u : User = new_user (env.uuid4 (w.drawn + 2)) w.now (record {
        email = strip (lower email);
        password_hash = some hash;
        password_salt = some salt;
        yandex_id = none;
      }) in
      let stored = env.mongo.insert_one_lem same_keys u w.db.users in
      (
        hash,
        salt,
        (hash_password password w).1,
        refl,
        ground arith,
        ground arith,
        ground arith,
        ground arith,
        ground arith,
        ground arith,
      )

  nonempty-some : (s : Text) → s ≢ [] → nonempty (some s) ≡ some s
  unfolding nonempty
  nonempty-some [] h = absurd (h refl)
  nonempty-some (c ∷ s) h = refl

  same_email : (user d : User) → by_email user.email d ≡ true → same_keys user d ≡ true
  unfolding by_email same_keys
  same_email user d h = ground arith

  found_by_email : (user : User) → user.deleted_at ≡ none → by_email user.email user ≡ true
  unfolding by_email
  found_by_email user active = ground (arith, text_eq_refl user.email)

  -- The stored account is found under the address.
  get_active_by_email-create_local_user :
      (email : Text) (user : User) (c : List User) (w : World)
      → user.email ≡ strip (lower email)
      → user.deleted_at ≡ none
      → has (same_keys user) c ≡ false
      → w.db.users ≡ c ++ user ∷ []
      → get_active_by_email email w ≡ some user
  unfolding get_active_by_email Repository.get_active_by_email first
  get_active_by_email-create_local_user email user c w at active free stored =
      env.mongo.find_one_lem (by_email (strip (lower email))) w.db.users
      ∙ ap (first (by_email (strip (lower email)))) stored
      ∙ ap (λ (e : Text). first (by_email e) (c ++ user ∷ [])) (sym at)
      ∙ ground (
        arith,
        first-append (by_email user.email) c (user ∷ []),
        has-first (by_email user.email) c
            (has_less (by_email user.email) (same_keys user) (same_email user) c free),
        found_by_email user active,
      )

  hash_is_some :
      (password hash salt : Text) (w v : World)
      → hash_password password w ≡ (ok (hash, salt), v)
      → (hash ≢ []) × (salt ≢ [])
  unfolding hash_password token_hex
  hash_is_some password hash salt w v h =
      let s = env.token_hex w.drawn in
      let made : env.bcrypt.hashpw (w.drawn + 1) (password ++ s) ≡ hash = ground arith in
      let drawn : s ≡ salt = ground arith in
      (
        rw (← made) (env.bcrypt.hashpw_nonempty (w.drawn + 1) (password ++ s)),
        rw (← drawn) (env.token_hex_nonempty w.drawn),
      )

  -- Whoever registers an address with a password is let in with both, under any spelling of the address: a login right
  -- after the account was stored goes straight on to issue the session.
  pub login-create_local_user :
      (email email' password : Text) (user : User) (w : World)
      → strip (lower email') ≡ strip (lower email)
      → (create_local_user email password w).0 ≡ ok user
      → login email' password (create_local_user email password w).1
        ≡ issue_session_for_user user.id (create_local_user email password w).1
  unfolding login get_active_by_email
  login-create_local_user email email' password user w alike h =
      let (hash, salt, v, made, at, active, h1, h2, free, stored) =
        stored_user email password user w h in
      let (some_hash, some_salt) = hash_is_some password hash salt w v made in
      let w' : World = (create_local_user email password w).1 in
      let found : get_active_by_email email' w' ≡ some user =
        get_active_by_email-create_local_user email' user w.db.users w' (at ∙ sym alike) active free
          stored in
      ground (
        arith,
        found,
        nonempty-some hash some_hash,
        nonempty-some salt some_salt,
        verify-hash_password password hash salt w
            (ap (λ (q : Result (Text × Text) × World). q.0) made),
      )
