-- ===== src/Examples/Runs.antt =====
-- Witnesses of the theorems on requests, on reachable states and on the specification of the items.
use fastapi_newyear.Base.{
  ℕ, ◌≡◌, refl, ◌⊎◌, ◌≤◌, Bool, true, false, arith, codes, ◌∷◌, [], some, none, first, has, text_eq,
}
use fastapi_newyear.Errors.{ok, err, unauthorized}
use fastapi_newyear.Config.{access_ttl, refresh_ttl, parse_duration}
use fastapi_newyear.World.{World}
use fastapi_newyear.Common.Cache
use fastapi_newyear.Common.Cache.Client.{called}
use fastapi_newyear.Auth.Tokens
use fastapi_newyear.Auth.Sessions
use fastapi_newyear.Auth.Sessions.Accepted.{
  with_user, access_claims, get_current_auth-issue_session,
}
use fastapi_newyear.Auth.Sessions.Expired.{get_current_auth_late}
use fastapi_newyear.Auth.Dependencies.{get_current_auth}
use fastapi_newyear.Items.Repository.{get_active_by_id}
use fastapi_newyear.Items.Service.{get_item}
use fastapi_newyear.Items.Coherence.{reading}
use fastapi_newyear.Items.Coherence.Runs.{here, then, read, change, get_item_uncached}
use fastapi_newyear.Items.Refinement.{deletion, view, run, may, specified}
use fastapi_newyear.Items.Refinement.Commands.{run_refines}
use fastapi_newyear.Web.Requests.{Cookies, public, by_user, register, whoami, serve}
use fastapi_newyear.Web.Gate.{HasNoSession, serve_without_session}
use fastapi_newyear.Web.Answers.{IsAnswer, serve-IsAnswer}
use fastapi_newyear.Consistency.Keys.{IsConsistent}
use fastapi_newyear.Consistency.Reachable.{start, next, request, Reachable-IsConsistent}
use fastapi_newyear.Examples.Environment.{env, empty_world}
use fastapi_newyear.Examples.Accounts.{signed_in, frost}
use fastapi_newyear.Examples.Items.{listed, listed-IsWellFormed}
use fastapi_newyear.Examples.Sessions.{renewed}

abbrev no_cookies : Cookies
no_cookies = record { access_token = none; refresh_token = none }

abbrev stale : Cookies
stale = record { access_token = some (codes "stale"); refresh_token = none }

reachable_example :
    IsConsistent
      (serve no_cookies (public (register (codes "a@x") (codes "Winter2027"))) empty_world).1.db
reachable_example = Reachable-IsConsistent (
    next (start empty_world refl)
      (request no_cookies (public (register (codes "a@x") (codes "Winter2027"))) empty_world))

no_record : HasNoSession (some (codes "stale")) empty_world
unfolding Tokens.get_valid_token first
no_record token e id = refl

without_session_example :
    ((serve stale (by_user whoami) empty_world).0.status ≡ 401)
    × ((serve stale (by_user whoami) empty_world).0.cookies ≡ [])
    × ((serve stale (by_user whoami) empty_world).1.db ≡ empty_world.db)
without_session_example = serve_without_session stale whoami empty_world no_record

answer_example : IsAnswer (serve stale (by_user whoami) empty_world).0
answer_example = serve-IsAnswer stale (by_user whoami) empty_world

issued : (Sessions.issue_session frost signed_in).0 ≡ ok renewed
unfolding Sessions.issue_session fastapi_newyear.World.uuid4
    fastapi_newyear.Common.Jwt.create_access_token access_ttl fastapi_newyear.Base.strip
    fastapi_newyear.Base.lower fastapi_newyear.Common.Jwt.create_refresh_token refresh_ttl
    Tokens.create_token has Tokens.same_keys fastapi_newyear.Common.Passwords.hash_token
    fastapi_newyear.Common.Jwt.claims Sessions.store_access_jti Cache.set
    fastapi_newyear.Users.Service.public_profile
issued = refl

access_15m : access_ttl env.settings ≡ ok 900000000
unfolding access_ttl parse_duration fastapi_newyear.Base.strip fastapi_newyear.Base.lower
access_15m = refl

refresh_7d : refresh_ttl env.settings ≡ ok 604800000000
unfolding refresh_ttl parse_duration fastapi_newyear.Base.strip fastapi_newyear.Base.lower
refresh_7d = refl

expired_example :
    get_current_auth (some renewed.access_token) (record empty_world { now = 1900000000 })
    ≡ (err (unauthorized "Access token expired"), record empty_world { now = 1900000000 })
expired_example =
    get_current_auth_late 900000000 604800000000 access_15m refresh_7d frost signed_in
      (record empty_world { now = 1900000000 }) renewed issued (ground arith)

accepted_example :
    let w' = record (Sessions.issue_session frost signed_in).1 { now = 1000000005 } in
    get_current_auth (some renewed.access_token) w'
    ≡ with_user 103
        (access_claims (λ n. refl) 900000000 604800000000 access_15m refresh_7d frost signed_in)
        (record w' { server = called (called w'.server) })
accepted_example =
    get_current_auth-issue_session (λ n. refl) 900000000 604800000000 access_15m refresh_7d frost
      signed_in renewed 1000000005 issued (ground arith) (ground arith)

deletion_example :
    view (run (deletion 301) 103 listed) 301
    ≡ specified
        (deletion 301)
        103
        (may (deletion 301) 103 listed)
        (env.uuid4 listed.drawn)
        (view listed)
        301
deletion_example = run_refines (deletion 301) 103 listed 301 listed-IsWellFormed

abbrev uncached : World
uncached = record listed { server = record { dump = []; calls = 0 } }

uncached_example :
    (get_item 301 103 (run (deletion 301) 103 (get_item 301 103 uncached).1)).0
    ≡ reading (get_active_by_id 301 (run (deletion 301) 103 (get_item 301 103 uncached).1)) 103
unfolding fastapi_newyear.Examples.Keys.get
uncached_example =
    get_item_uncached (λ n. refl) uncached (run (deletion 301) 103 (get_item 301 103 uncached).1)
      301 103 (ground arith) listed-IsWellFormed (λ j x t later. refl)
      (then (then here (read 301 103 uncached))
        (change (deletion 301) 103 (get_item 301 103 uncached).1))
