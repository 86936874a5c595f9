-- ===== src/Notifications/Events.antt =====
-- App/modules/notifications/events.py, and `RabbitMQService.publish` of App/common/queue/rabbitmq.py
-- as far as the program sees it: the event is published, or the call raises.
use fastapi_newyear.Base.{Option, none, some, [], ◌∷◌, ◌++◌, Text, ◌==◌, if◌then◌else◌}
use fastapi_newyear.Errors.{broker_error}
use fastapi_newyear.Models.Accounts.{User}
use fastapi_newyear.Env.{Env}
use fastapi_newyear.World.{Action, Event, ◌>>=◌, ◌>>◌, gets, raise_if, modify, uuid4}

-- `email.split("@", 1)[0]`.
unfoldable pub local_part : Text → Text
local_part [] = []
local_part (c ∷ s) = if c == b'@' then [] else c ∷ local_part s

-- `name or default`: an empty name counts as none.
unfoldable pub or_else : Option Text → Text → Text
or_else none d = d
or_else (some []) d = d
or_else (some (c ∷ s)) d = c ∷ s

unfoldable pub publish : Event → Action (Unit {0})
publish event = do
  raise_if (← gets (λ w. w.broker_down)) broker_error
  modify (λ w. record w { published = w.published ++ event ∷ [] })

module _ ⦃env : Env⦄ where
  unfoldable pub publish_user_registered_event : User → Action (Unit {0})
  unfolding uuid4 publish
  publish_user_registered_event user = do
    event_id ← uuid4
    now ← gets (λ w. w.now)
    publish (record {
      event_id = event_id;
      timestamp = now;
      user_id = user.id;
      email = user.email;
      display_name = or_else user.display_name (local_part user.email);
      attempt = 1;
    })
