-- ===== src/Notifications/Consumer.antt =====
-- App/modules/notifications/consumer.py: `UserRegisteredConsumer`, and the callback of
-- `RabbitMQService.consume` in App/common/queue/rabbitmq.py. Acknowledging a message does not fail here.
pub mod Supervision
pub mod Once
pub mod Retries
pub mod Lifecycle
use fastapi_newyear.Base.{
  ℕ, zero, suc, ◌+◌, ◌*◌, max, Bool, true, false, not, Option, none, some, List, [], ◌∷◌, ◌++◌,
  Text, ◌==◌, leb, is_some, if◌then◌else◌,
}
use fastapi_newyear.Errors.{Result, ok, err, value_error, other_error}
use fastapi_newyear.Env.{Env}
use fastapi_newyear.Redis.{Key, word, num, processed}
use fastapi_newyear.World.{World, Server, Mail, Action, ◌>>=◌, ◌>>◌, pure, raise, gets, or_raise}
use fastapi_newyear.Notifications.Events.{or_else, local_part}
use fastapi_newyear.Common.Cache
use fastapi_newyear.Common.Cache.Client
use fastapi_newyear.Common.Cache.Client.{fails, called, set_nx}

-- What the consumer reads of a message: an empty `eventId` counts as missing; `registered` is whether
-- `eventType` is "user.registered"; `attempt` is missing, is no number (`some none`), or is a number.
pub record Message : Type 0 where
  pub event_id : Option ℕ
  pub registered : Bool
  pub email : Option Text
  pub display_name : Option Text
  pub user_id : Option ℕ
  pub attempt : Option (Option ℕ)

-- `ack`, `nack(requeue=True)` and `nack(requeue=False)`, which moves the message to the dead letters.
pub data Verdict : Type 0 where
  ack requeue dead_letter : Verdict

-- `24 * 60 * 60` seconds.
abbrev pub day : ℕ
day = 24 * 60 * 60

-- `int(metadata.get("attempt") or 1)`.
unfoldable pub metadata_attempt : Option (Option ℕ) → Option ℕ
metadata_attempt none = some 1
metadata_attempt (some none) = none
metadata_attempt (some (some n)) = some (if n == 0 then 1 else n)

-- What arrives: bytes that are no UTF-8, a text that is no JSON, JSON that is no object, or an object.
pub data Body : Type 0 where
  undecodable not_json not_object : Body
  object : Message → Body

module _ ⦃env : Env⦄ where
  unfoldable pub processed_key : ℕ → Key
  processed_key event_id = Cache.key (word "events" ∷ word "processed" ∷ num event_id ∷ [])

  unfoldable pub attempt_key : ℕ → Key
  attempt_key event_id = Cache.key (word "events" ∷ word "attempts" ∷ num event_id ∷ [])

  unfoldable pub is_processed : ℕ → Action Bool
  is_processed event_id = do found ← Cache.get (processed_key event_id); pure (is_some found)

  -- A `RedisError` is swallowed.
  unfoldable pub mark_processed : ℕ → World → World
  mark_processed event_id w = record w {
    server = (set_nx w.now (processed_key event_id) processed day w.server).1;
  }

  -- `incr` and `expire`: a failure of either call gives the attempt of the metadata.
  count_attempt : ℕ → Key → ℕ → Server → ℕ × Server
  count_attempt now key n s =
      if fails s
      then (n, called s)
      else (let s' = record (called s) { dump = (env.redis.incr now key s.dump).1 } in
          if fails s' then (n, called s') else (
            max (env.redis.incr now key s.dump).0 n,
            record (called s') { dump = env.redis.expire now key day s'.dump },
          ))

  unfoldable pub next_attempt : ℕ → ℕ → Action ℕ
  unfolding count_attempt
  next_attempt event_id n w =
      let (attempt, s) = count_attempt w.now (attempt_key event_id) n w.server in
      (ok attempt, record w { server = s })

  -- The call of the mail server: the mail may have gone out where the call raises.
  deliver : Mail → Action (Unit {0})
  deliver mail w = (
    if env.mail_raises w.mail_tries then err other_error else ok tt,
    record w {
      mailed = if env.mail_accepted w.mail_tries then w.mailed ++ mail ∷ [] else w.mailed;
      mail_tries = w.mail_tries + 1;
    },
  )

  -- `send_welcome_email` of `payload["email"]` and `payload["userId"]`: a missing key raises.
  unfoldable pub send_welcome_email : Message → Action (Unit {0})
  unfolding deliver
  send_welcome_email m = do
    to ← or_raise m.email other_error
    user_id ← or_raise m.user_id other_error
    deliver (record { to = to; name = or_else m.display_name (local_part to); user_id = user_id })

  -- The `try` block, and `except Exception`.
  after_mail : ℕ → ℕ → Result (Unit {0}) → Action Verdict
  after_mail event_id attempt (ok _) w =
      (Cache.del_key (attempt_key event_id) >>= λ _. pure ack) (mark_processed event_id w)
  after_mail event_id attempt (err e) w =
      if leb env.settings.rabbitmq_max_retries attempt
      then (Cache.del_key (attempt_key event_id) >>= λ _. pure dead_letter) w
      else (ok requeue, w)

  -- Behind the check of `is_processed`.
  after_check : ℕ → ℕ → Message → Bool → Action Verdict
  unfolding after_mail
  after_check event_id attempt m true w = (ok ack, w)
  after_check event_id attempt m false w =
      let (r, w') = send_welcome_email m w in after_mail event_id attempt r w'

  handle_registered : ℕ → ℕ → Message → Bool → Action Verdict
  unfolding after_check
  handle_registered event_id attempt m false = pure dead_letter
  handle_registered event_id attempt m true =
      is_processed event_id >>= after_check event_id attempt m

  handle_with_id : Option ℕ → Message → Action Verdict
  unfolding handle_registered
  handle_with_id none m = pure dead_letter
  handle_with_id (some event_id) m = do
    n ← or_raise (metadata_attempt m.attempt) value_error
    attempt ← next_attempt event_id n
    handle_registered event_id attempt m m.registered

  unfoldable pub handle_message : Message → Action Verdict
  unfolding handle_with_id
  handle_message m = handle_with_id m.event_id m

  -- The callback of `consume`: only `JSONDecodeError` is handled there.
  unfoldable pub callback : Body → Action Verdict
  callback undecodable = raise value_error
  callback not_json = pure dead_letter
  callback not_object = raise other_error
  callback (object m) = handle_message m

  -- A message that is put back into the queue is delivered again. So is one whose handling raises: it
  -- stays unacknowledged when `consume` closes its connection, and the broker puts it back.
  again : (Message → Action Verdict) → Message → Result Verdict → Action Verdict
  again deliver_again m (ok requeue) = deliver_again m
  again deliver_again m (ok ack) = pure ack
  again deliver_again m (ok dead_letter) = pure dead_letter
  again deliver_again m (err e) = deliver_again m

  -- What becomes of a message in `n` deliveries at most; `requeue` is said of one that is in the queue.
  unfoldable pub deliveries : ℕ → Message → Action Verdict
  unfolding again
  deliveries zero m w = (ok requeue, w)
  deliveries (suc n) m w = let (r, w') = handle_message m w in again (deliveries n) m r w'
