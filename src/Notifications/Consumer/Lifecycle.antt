-- ===== src/Notifications/Consumer/Lifecycle.antt =====
-- App/modules/notifications/consumer.py: `start` and `stop`, and the startup and the shutdown of
-- app/main.py.
use fastapi_newyear.Base.{Bool, true, false, Option, none, some}
use fastapi_newyear.Errors.{Result, ok, err}
use fastapi_newyear.Config.{validate_smtp_config}
use fastapi_newyear.Env.{Env}

-- `_stop_event`, and whether the thread is alive, if there is one.
pub record Worker : Type 0 where
  pub stop_event : Bool
  pub thread : Option Bool

abbrev pub is_alive : Option Bool → Bool
is_alive none = false
is_alive (some b) = b

module _ ⦃env : Env⦄ where
  start_checked : Worker → Result (Unit {0}) → Result Worker
  start_checked c (ok _) = ok (record { stop_event = false; thread = some true })
  start_checked c (err e) = err e

  start_unless : Worker → Bool → Result Worker
  unfolding start_checked
  start_unless c true = ok c
  start_unless c false = start_checked c (validate_smtp_config env.settings)

  unfoldable pub start : Worker → Result Worker
  unfolding start_unless
  start c = start_unless c (is_alive c.thread)

  unfoldable pub stop : Worker → Worker
  stop c = record c { stop_event = true }

  -- The indexes and the topology are set up by calls that may raise; either error is only logged.
  unfoldable pub startup : Result (Unit {0}) → Result (Unit {0}) → Worker → Result Worker
  startup create_indexes setup c = elim (validate_smtp_config env.settings) [
    | ok _ ↦ start c
    | err e ↦ err e
  ]
