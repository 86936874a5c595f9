-- ===== src/Examples/Mails.antt =====
-- Witnesses of the theorems on the consumer of registrations.
use fastapi_newyear.Base.{
  ℕ, ◌≤◌, ◌≡◌, refl, ◌≢◌, true, false, none, some, List, [], ◌∷◌, ◌++◌, arith, codes,
}
use fastapi_newyear.Errors.{ok}
use fastapi_newyear.Env.{Env}
use fastapi_newyear.World.{World}
use fastapi_newyear.Notifications.Consumer.{Message, ack, requeue, handle_message, deliveries}
use fastapi_newyear.Notifications.Consumer.Supervision.{
  Round, run_from, crashes, running, exited, HasRow, run_from_lem,
}
use fastapi_newyear.Notifications.Consumer.Once.{handle_message_once}
use fastapi_newyear.Notifications.Consumer.Retries.{deliveries_without_redis}
use fastapi_newyear.Examples.Environment.{env, empty_world}

abbrev welcome : Message
welcome = record {
  event_id = some 107;
  registered = true;
  email = some (codes "a@x");
  display_name = none;
  user_id = some 103;
  attempt = some (some 1);
}

-- The second e-mail of the environment goes out without an error.
abbrev ready : World
ready = record empty_world { mail_tries = 1 }

sent : (handle_message welcome ready).0 ≡ ok ack
unfolding handle_message fastapi_newyear.Notifications.Consumer.metadata_attempt
    fastapi_newyear.Notifications.Consumer.next_attempt
    fastapi_newyear.Notifications.Consumer.is_processed fastapi_newyear.Common.Cache.get
    fastapi_newyear.Common.Cache.Client.get fastapi_newyear.Examples.Keys.get
    fastapi_newyear.Notifications.Consumer.attempt_key fastapi_newyear.Common.Cache.key
    fastapi_newyear.Base.text_eq fastapi_newyear.Notifications.Consumer.processed_key
    fastapi_newyear.Notifications.Consumer.send_welcome_email fastapi_newyear.Common.Cache.del_key
sent = refl

once_example :
    let w' = record (handle_message welcome ready).1 { now = 1000000005 } in
    ((handle_message welcome w').0 ≡ ok ack) × ((handle_message welcome w').1.mailed ≡ w'.mailed)
unfolding fastapi_newyear.Notifications.Consumer.metadata_attempt fastapi_newyear.Examples.Keys.get
once_example =
    handle_message_once (λ n. refl) 107 welcome 1 1000000005 ready refl refl refl refl
      (ground arith) sent

-- A message of another publisher, whose attempt is a text.
abbrev odd : Message
odd = record welcome { attempt = some none }

-- An environment in which neither Redis nor the mail server answers.
abbrev outage : Env
outage = record env { redis_fails = λ n. true; mail_raises = λ n. true }

outage_example : (deliveries ⦃env = outage⦄ 1000 welcome empty_world).0 ≡ ok requeue
unfolding fastapi_newyear.Notifications.Consumer.metadata_attempt
outage_example =
    deliveries_without_redis ⦃env = outage⦄ (λ n. refl) (λ n. refl) 107 1 1000 welcome empty_world
      refl refl refl (ground arith)

supervision_example :
    ((n : ℕ) (before after : List Round)
      → run_from 5 0 before ≡ running n
      → run_from 5 0 (before ++ crashes 5 after) ≡ exited)
    × ((rounds : List Round) → run_from 5 0 rounds ≡ exited → HasRow 5 0 rounds)
supervision_example = run_from_lem 5 (ground arith)
