-- ===== src/Web/Gate.antt =====
-- The requests that ask for a user, from a browser without a valid session.
use fastapi_newyear.Base.{
  ℕ, ◌≡◌, refl, ◌∙◌, Option, none, some, [], Text, arith, Option-cases, inl, inr,
}
use fastapi_newyear.Errors.{Exc, ok, err, status_code, unauthorized, Result, Result-cases}
use fastapi_newyear.Models.Accounts.{access}
use fastapi_newyear.Env.{Env, Payload, Decoded, decoded, expired, invalid}
use fastapi_newyear.World.{World}
use fastapi_newyear.Common.Cache
use fastapi_newyear.Common.Jwt.{decode_access_token, check_access}
use fastapi_newyear.Common.Passwords.{hash_token}
use fastapi_newyear.Auth.Tokens.{get_valid_token}
use fastapi_newyear.Auth.Sessions.{is_access_jti_valid}
use fastapi_newyear.Auth.Service.{claim_id, nonempty}
use fastapi_newyear.Auth.Dependencies.{AuthContext, get_current_auth}
use fastapi_newyear.Auth.Dependencies.Frame.{get_current_auth_frame}
use fastapi_newyear.Web.{error_response, respond}
use fastapi_newyear.Web.Requests.{Cookies, UserRequest, by_user, handle, serve}

module _ ⦃env : Env⦄ where
  -- The cookie is missing or empty, or holds a token without a valid record.
  abbrev pub HasNoSession : Option Text → World → Type 0
  HasNoSession cookie w =
      (token : Text)
      → nonempty cookie ≡ some token
      → (id : ℕ) → get_valid_token id (hash_token token) access w ≡ none

  -- The result is a 401.
  abbrev IsRefusal : Result AuthContext → Type 0
  IsRefusal r = (e : Exc) × (r ≡ err e) × (status_code e ≡ 401)

  check_access_refusal : (d : Decoded) (x : Exc) → check_access d ≡ err x → status_code x ≡ 401
  unfolding check_access status_code
  check_access_refusal (decoded p) x e = ground arith
  check_access_refusal expired x e = ground arith
  check_access_refusal invalid x e = ground arith

  decode_refusal :
      (now : ℕ) (token : Text) (x : Exc)
      → decode_access_token now token ≡ err x
      → status_code x ≡ 401
  unfolding decode_access_token
  decode_refusal now token x e = check_access_refusal _ x e

  undecoded_refused :
      (cookie : Option Text) (token : Text) (w : World) (x : Exc)
      → nonempty cookie ≡ some token
      → decode_access_token w.now token ≡ err x
      → (get_current_auth cookie w).0 ≡ err x
  unfolding get_current_auth
  undecoded_refused cookie token w x c e = ground arith

  payload_refused :
      (cookie : Option Text) (token : Text) (w : World) (p : Payload)
      → nonempty cookie ≡ some token
      → decode_access_token w.now token ≡ ok p
      → ((id : ℕ) → get_valid_token id (hash_token token) access w ≡ none)
      → IsRefusal (get_current_auth cookie w).0
  unfolding get_current_auth is_access_jti_valid Cache.is_available Cache.get get_valid_token
      status_code
  payload_refused cookie token w p c e out = elim (Option-cases (claim_id p.jti)) [
    | inl j ↦ (unauthorized "Invalid access token payload", ground arith, refl)
    | inr (id, j) ↦ elim (Option-cases (claim_id p.sub)) [
      | inl s ↦ (unauthorized "Invalid access token payload", ground arith, refl)
      | inr (u, s) ↦
          (unauthorized "Access token revoked or not found", ground (arith, out id), refl)
    ]
  ]

  missing_refused :
      (cookie : Option Text) (w : World)
      → nonempty cookie ≡ none
      → (get_current_auth cookie w).0 ≡ err (unauthorized "Missing access token")
  unfolding get_current_auth
  missing_refused cookie w c = ground arith

  get_current_auth-IsRefusal :
      (cookie : Option Text) (w : World)
      → HasNoSession cookie w
      → IsRefusal (get_current_auth cookie w).0
  unfolding status_code
  get_current_auth-IsRefusal cookie w out = elim (Option-cases (nonempty cookie)) [
    | inl c ↦ (unauthorized "Missing access token", missing_refused cookie w c, refl)
    | inr (token, c) ↦ elim (Result-cases (decode_access_token w.now token)) [
      | inl (p, e) ↦ payload_refused cookie token w p c e (out token c)
      | inr (x, e) ↦ (x, undecoded_refused cookie token w x c e, decode_refusal w.now token x e)
    ]
  ]

  refused_response :
      (c : Cookies) (r : UserRequest) (w : World) (e : Exc)
      → (get_current_auth c.access_token w).0 ≡ err e
      → serve c (by_user r) w ≡ (error_response e, (get_current_auth c.access_token w).1)
  unfolding serve respond handle
  refused_response c r w e h = ground arith

  error_response_lem :
      (e : Exc) → ((error_response e).status ≡ status_code e) × ((error_response e).cookies ≡ [])
  unfolding error_response
  error_response_lem e = (refl, refl)

  -- A request that asks for a user is answered with 401 where the access cookie is missing, is empty, or holds a token
  -- without a valid record; whatever it asks for, no collection changes and no cookie is set.
  pub serve_without_session :
      (c : Cookies) (r : UserRequest) (w : World)
      → HasNoSession c.access_token w
      → ((serve c (by_user r) w).0.status ≡ 401)
        × ((serve c (by_user r) w).0.cookies ≡ [])
        × ((serve c (by_user r) w).1.db ≡ w.db)
  serve_without_session c r w out =
      let (e, refused, code) = get_current_auth-IsRefusal c.access_token w out in
      rw (refused_response c r w e refused) (
        (error_response_lem e).0 ∙ code,
        (error_response_lem e).1,
        get_current_auth_frame c.access_token w,
      )
