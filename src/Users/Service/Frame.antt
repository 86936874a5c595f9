-- ===== src/Users/Service/Frame.antt =====
-- What the reads of `UsersService` leave alone.
use fastapi_newyear.Base.{ℕ, ◌≡◌, Text, arith, strip, lower, strip-lower_idem, ap}
use fastapi_newyear.Models.Accounts.{User}
use fastapi_newyear.Env.{Env}
use fastapi_newyear.World.{World}
use fastapi_newyear.Common.Cache
use fastapi_newyear.Users.Repository
use fastapi_newyear.Users.Service.{get_active_by_id, get_active_by_email, cache_public_profile}

-- Two worlds that differ in the Redis server alone.
pub record SameButServer (v w : World) : Type 0 where
  pub db : v.db ≡ w.db
  pub published : v.published ≡ w.published
  pub broker_down : v.broker_down ≡ w.broker_down
  pub now : v.now ≡ w.now
  pub drawn : v.drawn ≡ w.drawn

module _ ⦃env : Env⦄ where
  pub cache_public_profile_frame :
      (user : User) (w : World) → SameButServer (cache_public_profile user w).1 w
  unfolding cache_public_profile Cache.set
  cache_public_profile_frame user w = ground arith

  pub get_active_by_id_frame :
      (user_id : ℕ) (w : World) → SameButServer (get_active_by_id user_id w).1 w
  unfolding get_active_by_id Cache.get cache_public_profile Cache.set
  get_active_by_id_frame user_id w = ground arith

  -- An account is found under every spelling of its address, in capitals or with spaces around it.
  pub get_active_by_email_spelling :
      (email : Text) (w : World)
      → get_active_by_email (strip (lower email)) w ≡ get_active_by_email email w
  unfolding get_active_by_email
  get_active_by_email_spelling email w =
      ap (λ e. Repository.get_active_by_email e w) (strip-lower_idem email)
