-- ===== src/Common/Passwords.antt =====
-- App/common/security/passwords.py and App/common/security/hashes.py.
use fastapi_newyear.Base.{ℕ, ◌+◌, ◌≡◌, Bool, true, Text, ◌++◌, arith}
use fastapi_newyear.Errors.{ok}
use fastapi_newyear.Env.{Env}
use fastapi_newyear.World.{World, Action, ◌>>=◌, pure, token_hex, token_urlsafe}

module _ ⦃env : Env⦄ where
  -- `bcrypt.hashpw(…, bcrypt.gensalt())`.
  hashpw : Text → Action Text
  hashpw combined w = (ok (env.bcrypt.hashpw w.drawn combined), record w { drawn = w.drawn + 1 })

  -- The hash and the salt.
  unfoldable pub hash_password : Text → Action (Text × Text)
  unfolding hashpw token_hex
  hash_password password = do
    salt ← token_hex
    password_hash ← hashpw (password ++ salt)
    pure (password_hash, salt)

  unfoldable pub verify_password : Text → Text → Text → Bool
  verify_password password salt password_hash = env.bcrypt.checkpw (password ++ salt) password_hash

  unfoldable pub hash_token : Text → ℕ
  hash_token token = env.sha256 token

  unfoldable pub generate_random_token : Action Text
  unfolding token_urlsafe
  generate_random_token = token_urlsafe

  unfoldable pub generate_state : Action Text
  unfolding token_urlsafe
  generate_state = token_urlsafe

  -- A password verifies against the hash and the salt that were made of it.
  pub verify-hash_password :
      (password hash salt : Text) (w : World)
      → (hash_password password w).0 ≡ ok (hash, salt)
      → verify_password password salt hash ≡ true
  unfolding hash_password verify_password
  verify-hash_password password hash salt w h =
      ground (arith, env.bcrypt.checkpw-hashpw (w.drawn + 1) (password ++ env.token_hex w.drawn))
