-- ===== src/Consistency/Reachable.antt =====
-- The runs of the application from empty collections: requests, deliveries of messages, and what goes
-- on around it. Requests are taken one after the other.
use fastapi_newyear.Base.{ℕ, ◌≤◌, ◌≡◌, refl, sym, Bool, arith, []}
use mathlib.Core.Path.{subst}
use fastapi_newyear.Env.{Env}
use fastapi_newyear.World.{World, Db}
use fastapi_newyear.Common.Cache
use fastapi_newyear.Notifications.Consumer as Events
use fastapi_newyear.Notifications.Consumer.{
  callback, undecodable, not_json, not_object, object, handle_message, next_attempt, is_processed,
  mark_processed, send_welcome_email,
}
use fastapi_newyear.Web.Requests.{Cookies, Request, serve}
use fastapi_newyear.Consistency.Keys.{IsConsistent}
use fastapi_newyear.Consistency.Requests.{serve-IsConsistent}

abbrev pub empty_db : Db
empty_db = record {
  users = [];
  session_tokens = [];
  password_reset_tokens = [];
  oauth_states = [];
  holiday_items = [];
  files = [];
}

module _ ⦃env : Env⦄ where
  pub data Step : World → World → Type 0 where
    request : (c : Cookies) (r : Request) (w : World) → Step w (serve c r w).1
    message : (body : Events.Body) (w : World) → Step w (callback body w).1
    clock : (t : ℕ) (w : World) → w.now ≤ t → Step w (record w { now = t })
    broker : (down : Bool) (w : World) → Step w (record w { broker_down = down })

  pub data Reachable : World → Type 0 where
    start : (w : World) → w.db ≡ empty_db → Reachable w
    next : {v w : World} → Reachable v → Step v w → Reachable w

  callback_frame : (body : Events.Body) (w : World) → (callback body w).1.db ≡ w.db
  unfolding callback handle_message next_attempt is_processed mark_processed send_welcome_email
      Cache.get Cache.del_key
  callback_frame undecodable w = refl
  callback_frame not_json w = refl
  callback_frame not_object w = refl
  callback_frame (object m) w = ground arith

  Step-IsConsistent : {v w : World} → Step v w → IsConsistent v.db → IsConsistent w.db
  Step-IsConsistent (request c r w) h = serve-IsConsistent c r w h
  Step-IsConsistent (message body w) h = subst IsConsistent (sym (callback_frame body w)) h
  Step-IsConsistent (clock t w later) h = h
  Step-IsConsistent (broker down w) h = h

  empty-IsConsistent : IsConsistent empty_db
  empty-IsConsistent = record {
    users = tt;
    session_tokens = tt;
    password_reset_tokens = tt;
    oauth_states = tt;
    files = tt;
    items = (tt, tt);
  }

  -- In every state that requests, deliveries of messages, the clock and the broker lead to from empty collections, no
  -- two documents of a collection share a key of a unique index, and no user has two active items of one title.
  pub Reachable-IsConsistent : {w : World} → Reachable w → IsConsistent w.db
  Reachable-IsConsistent (start w empty) = subst IsConsistent (sym empty) empty-IsConsistent
  Reachable-IsConsistent (next before step) = Step-IsConsistent step (Reachable-IsConsistent before)
