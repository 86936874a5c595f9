-- ===== src/Auth/Tokens/Rotation.antt =====
-- A session is revoked and two tokens are added: what becomes of an old token of the session.
use fastapi_newyear.Base.{
  ℕ, ◌≡◌, refl, true, false, none, some, List, [], ◌∷◌, ◌++◌, arith, All, first, has, update_all,
  first-append_none, first-update_all_out, first-none, has-first_hit, has-update_all, has-append,
  has_mono, first_passes, ◌==◌, sym, ◌∙◌, Bool-cases, inl, inr,
}
use mathlib.Core.Bool.{false≢true}
use fastapi_newyear.Models.Accounts.{SessionToken, access, refresh}
use fastapi_newyear.Auth.Tokens.{same_keys, valid_token, live_in_session, revoked}
use fastapi_newyear.Auth.Tokens.Revocation.{revoked_invalid}

revoked_token_invalid :
    (now t id hash sid : ℕ) (c : List SessionToken)
    → All (λ d. d.token_hash ≡ hash → d.session_id ≡ sid) c
    → first (valid_token t id hash refresh) (update_all (live_in_session sid) (revoked now) c)
      ≡ none
unfolding valid_token live_in_session
revoked_token_invalid now t id hash sid c only =
    first-update_all_out (valid_token t id hash refresh) (live_in_session sid) (revoked now)
      (λ d _. revoked_invalid t now id hash refresh d) c
    ∙ first-none _ _ c only (λ d own. ground arith)

hash_taken :
    (now id hash : ℕ) (c : List SessionToken) (d : SessionToken) (n sid : ℕ)
    → first (valid_token now id hash refresh) c ≡ some d
    → has
        (λ (x : SessionToken). hash == x.token_hash)
        (update_all (live_in_session sid) (revoked n) c)
      ≡ true
unfolding valid_token revoked
hash_taken now id hash c d n sid h =
    has-update_all (λ (x : SessionToken). hash == x.token_hash) (live_in_session sid) (revoked n)
      (λ x. refl) c
    ∙ has-first_hit (valid_token now id hash refresh) (λ (x : SessionToken). hash == x.token_hash) c
        d h (ground (arith, first_passes (valid_token now id hash refresh) c d))

access_invalid :
    (t id hash : ℕ) (x : SessionToken)
    → x.token_type ≡ access
    → valid_token t id hash refresh x ≡ false
unfolding valid_token
access_invalid t id hash x e = ground arith

other_hash_invalid :
    (t id hash : ℕ) (y : SessionToken)
    → (hash == y.token_hash) ≡ false
    → valid_token t id hash refresh y ≡ false
unfolding valid_token
other_hash_invalid t id hash y e = ground arith

fresh_hash :
    (hash : ℕ) (y : SessionToken) (c : List SessionToken)
    → has (λ (x : SessionToken). hash == x.token_hash) c ≡ true
    → has (same_keys y) c ≡ false
    → (hash == y.token_hash) ≡ false
unfolding same_keys
fresh_hash hash y c taken free = elim (Bool-cases (hash == y.token_hash)) [
  | inr e ↦ e
  | inl e ↦ absurd (
      false≢true (
        sym free
        ∙ has_mono (λ (x : SessionToken). hash == x.token_hash) (same_keys y) (λ x k. ground arith)
            c taken))
]

-- Neither the revoked tokens nor the new pair hold a valid record of the old token.
pub old_token_invalid :
    (now t id id' hash sid : ℕ) (c : List SessionToken) (x y d : SessionToken)
    → All (λ d. d.token_hash ≡ hash → d.session_id ≡ sid) c
    → first (valid_token now id hash refresh) c ≡ some d
    → x.token_type ≡ access
    → has (same_keys y) (update_all (live_in_session sid) (revoked now) c ++ x ∷ []) ≡ false
    → first
        (valid_token t id' hash refresh)
        ((update_all (live_in_session sid) (revoked now) c ++ x ∷ []) ++ y ∷ [])
      ≡ none
old_token_invalid now t id id' hash sid c x y d only found xt free =
    let c1 : List SessionToken = update_all (live_in_session sid) (revoked now) c in
    let split = has-append (same_keys y) c1 (x ∷ []) in
    let free1 : has (same_keys y) c1 ≡ false = ground arith in
    first-append_none (valid_token t id' hash refresh) (c1 ++ x ∷ []) y
      (first-append_none (valid_token t id' hash refresh) c1 x
        (revoked_token_invalid now t id' hash sid c only) (access_invalid t id' hash x xt))
      (other_hash_invalid t id' hash y
        (fresh_hash hash y c1 (hash_taken now id hash c d now sid found) free1))
