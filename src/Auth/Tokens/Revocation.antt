-- ===== src/Auth/Tokens/Revocation.antt =====
-- What is valid among the session tokens after a revocation.
use fastapi_newyear.Base.{
  ℕ, ◌≡◌, ◌≢◌, false, not, ◌&&◌, none, some, [], arith, first, matching, first-update_all_out,
  matching-update_all_out, matching_none, first_passes, first_among, first-none, All, sym, ap, ◌∙◌,
}
use fastapi_newyear.Models.Accounts.{SessionToken, TokenType}
use fastapi_newyear.Env.{Env}
use fastapi_newyear.World.{World}
use fastapi_newyear.Auth.Tokens.{
  valid_token, valid_in_session, live_in_session, live_of_user, revoked, get_valid_token,
  list_valid_tokens_by_session, revoke_by_session_id, revoke_all_for_user,
}

pub revoked_invalid :
    (t now id hash : ℕ) (ty : TokenType) (d : SessionToken)
    → valid_token t id hash ty (revoked now d) ≡ false
unfolding valid_token revoked
revoked_invalid t now id hash ty d = ground arith

module _ ⦃env : Env⦄ where
  -- The tokens that are valid after all of a user's are revoked: those that were, of other users.
  pub get_valid_token-revoke_all_for_user :
      (u id hash t : ℕ) (ty : TokenType) (w : World)
      → get_valid_token id hash ty (record (revoke_all_for_user u w) { now = t })
        ≡ first (λ d. valid_token t id hash ty d && not (live_of_user u d)) w.db.session_tokens
  unfolding get_valid_token revoke_all_for_user
  get_valid_token-revoke_all_for_user u id hash t ty w =
      env.mongo.find_one_lem (valid_token t id hash ty) _
      ∙ ap (first (valid_token t id hash ty))
          (env.mongo.update_many_lem (live_of_user u) (revoked w.now) w.db.session_tokens)
      ∙ first-update_all_out (valid_token t id hash ty) (live_of_user u) (revoked w.now)
          (λ d _. revoked_invalid t w.now id hash ty d) w.db.session_tokens

  get_valid_token-revoke_by_session_id :
      (sid id hash t : ℕ) (ty : TokenType) (w : World)
      → get_valid_token id hash ty (record (revoke_by_session_id sid w) { now = t })
        ≡ first (λ d. valid_token t id hash ty d && not (live_in_session sid d)) w.db.session_tokens
  unfolding get_valid_token revoke_by_session_id
  get_valid_token-revoke_by_session_id sid id hash t ty w =
      env.mongo.find_one_lem (valid_token t id hash ty) _
      ∙ ap (first (valid_token t id hash ty))
          (env.mongo.update_many_lem (live_in_session sid) (revoked w.now) w.db.session_tokens)
      ∙ first-update_all_out (valid_token t id hash ty) (live_in_session sid) (revoked w.now)
          (λ d _. revoked_invalid t w.now id hash ty d) w.db.session_tokens

  -- No token of the user is valid any more, at any time.
  pub revoke_all_for_user_revokes :
      (u id hash t : ℕ) (ty : TokenType) (w : World) (d : SessionToken)
      → get_valid_token id hash ty (record (revoke_all_for_user u w) { now = t }) ≡ some d
      → d.user_id ≢ u
  unfolding valid_token live_of_user
  revoke_all_for_user_revokes u id hash t ty w d h = ground (
    arith,
    get_valid_token-revoke_all_for_user u id hash t ty w,
    first_passes (λ d. valid_token t id hash ty d && not (live_of_user u d)) w.db.session_tokens d,
  )

  pub revoke_by_session_id_revokes :
      (sid id hash t : ℕ) (ty : TokenType) (w : World) (d : SessionToken)
      → get_valid_token id hash ty (record (revoke_by_session_id sid w) { now = t }) ≡ some d
      → d.session_id ≢ sid
  unfolding valid_token live_in_session
  revoke_by_session_id_revokes sid id hash t ty w d h = ground (
    arith,
    get_valid_token-revoke_by_session_id sid id hash t ty w,
    first_passes (λ d. valid_token t id hash ty d && not (live_in_session sid d))
        w.db.session_tokens d,
  )

  -- A valid token of another user stays valid.
  pub revoke_all_for_user_keeps :
      (u id hash t : ℕ) (ty : TokenType) (w : World) (d : SessionToken)
      → get_valid_token id hash ty (record w { now = t }) ≡ some d
      → d.user_id ≢ u
      → get_valid_token id hash ty (record (revoke_all_for_user u w) { now = t }) ≡ some d
  unfolding get_valid_token live_of_user
  revoke_all_for_user_keeps u id hash t ty w d h ne =
      get_valid_token-revoke_all_for_user u id hash t ty w
      ∙ first_among (valid_token t id hash ty) (λ d. not (live_of_user u d)) w.db.session_tokens d
          (sym (env.mongo.find_one_lem (valid_token t id hash ty) w.db.session_tokens) ∙ h)
          (ground arith)

  -- A valid token of another session stays valid.
  pub revoke_by_session_id_keeps :
      (sid id hash t : ℕ) (ty : TokenType) (w : World) (d : SessionToken)
      → get_valid_token id hash ty (record w { now = t }) ≡ some d
      → d.session_id ≢ sid
      → get_valid_token id hash ty (record (revoke_by_session_id sid w) { now = t }) ≡ some d
  unfolding get_valid_token live_in_session
  revoke_by_session_id_keeps sid id hash t ty w d h ne =
      get_valid_token-revoke_by_session_id sid id hash t ty w
      ∙ first_among (valid_token t id hash ty) (λ d. not (live_in_session sid d))
          w.db.session_tokens d
          (sym (env.mongo.find_one_lem (valid_token t id hash ty) w.db.session_tokens) ∙ h)
          (ground arith)

  session_tokens_dead :
      (now sid : ℕ) (ty : TokenType) (d : SessionToken)
      → (valid_in_session now sid ty d && not (live_in_session sid d)) ≡ false
  unfolding valid_in_session live_in_session
  session_tokens_dead now sid ty d = ground arith

  revoked_unlisted :
      (now sid : ℕ) (ty : TokenType) (d : SessionToken)
      → valid_in_session now sid ty (revoked now d) ≡ false
  unfolding valid_in_session revoked
  revoked_unlisted now sid ty d = ground arith

  -- Once a session is revoked, no valid token of it is listed.
  pub list_valid_tokens-revoke_by_session_id :
      (sid : ℕ) (ty : TokenType) (w : World)
      → list_valid_tokens_by_session sid ty (revoke_by_session_id sid w) ≡ []
  unfolding list_valid_tokens_by_session revoke_by_session_id
  list_valid_tokens-revoke_by_session_id sid ty w =
      env.mongo.find_lem (valid_in_session w.now sid ty) _
      ∙ ap (matching (valid_in_session w.now sid ty))
          (env.mongo.update_many_lem (live_in_session sid) (revoked w.now) w.db.session_tokens)
      ∙ matching-update_all_out (valid_in_session w.now sid ty) (live_in_session sid)
          (revoked w.now) (λ d _. revoked_unlisted w.now sid ty d) w.db.session_tokens
      ∙ matching_none _ (session_tokens_dead w.now sid ty) w.db.session_tokens

  -- A token that is recorded only for the user, or only in the session, is not valid any more.
  pub revoke_all_for_user_kills :
      (u id hash t : ℕ) (ty : TokenType) (w : World)
      → All (λ d. d.token_hash ≡ hash → d.user_id ≡ u) w.db.session_tokens
      → get_valid_token id hash ty (record (revoke_all_for_user u w) { now = t }) ≡ none
  unfolding valid_token live_of_user
  revoke_all_for_user_kills u id hash t ty w only =
      get_valid_token-revoke_all_for_user u id hash t ty w
      ∙ first-none _ _ w.db.session_tokens only (λ d own. ground arith)

  pub revoke_by_session_id_kills :
      (sid id hash t : ℕ) (ty : TokenType) (w : World)
      → All (λ d. d.token_hash ≡ hash → d.session_id ≡ sid) w.db.session_tokens
      → get_valid_token id hash ty (record (revoke_by_session_id sid w) { now = t }) ≡ none
  unfolding valid_token live_in_session
  revoke_by_session_id_kills sid id hash t ty w only =
      get_valid_token-revoke_by_session_id sid id hash t ty w
      ∙ first-none _ _ w.db.session_tokens only (λ d own. ground arith)
