-- ===== src/Notifications/Consumer/Retries.antt =====
-- How often a message is put back into the queue.
use fastapi_newyear.Base.{ℕ, zero, suc, ◌+◌, ◌<◌, ◌≡◌, ◌⊎◌, refl, true, none, some, arith}
use fastapi_newyear.Errors.{Result, ok}
use fastapi_newyear.Env.{Env}
use fastapi_newyear.Redis.{count}
use fastapi_newyear.World.{World}
use fastapi_newyear.Common.Cache
use fastapi_newyear.Common.Cache.Client
use fastapi_newyear.Common.Cache.Client.{peek}
use fastapi_newyear.Notifications.Consumer.{
  Message, Verdict, ack, requeue, dead_letter, metadata_attempt, attempt_key, is_processed,
  next_attempt, send_welcome_email, handle_message, deliveries,
}

-- Acknowledged, or moved to the dead letters.
abbrev pub HasLeft : Result Verdict → Type 0
HasLeft r = (r ≡ ok ack) ⊎ (r ≡ ok dead_letter)

module _ ⦃env : Env⦄ where
  -- The counter of a message after `n` attempts.
  abbrev Counted : ℕ → ℕ → World → Type 0
  Counted id zero w = peek w.now (attempt_key id) w.server ≡ none
  Counted id (suc n) w = peek w.now (attempt_key id) w.server ≡ some (count (suc n))

  requeued_without_redis :
      (down : (n : ℕ) → env.redis_fails n ≡ true) (no_mail : (n : ℕ) → env.mail_raises n ≡ true)
      (id a : ℕ) (m : Message) (w : World)
      → m.event_id ≡ some id
      → m.registered ≡ true
      → metadata_attempt m.attempt ≡ some a
      → a < env.settings.rabbitmq_max_retries
      → (handle_message m w).0 ≡ ok requeue
  unfolding handle_message next_attempt is_processed send_welcome_email Cache.get Client.get
  requeued_without_redis down no_mail id a m w known registered number low =
      ground (arith, down w.server.calls, down (w.server.calls + 1), no_mail w.mail_tries)

  -- While every call of Redis fails and every e-mail fails, a message of a registration whose own attempt is below the limit
  -- is put back into the queue at every delivery: no number of deliveries moves it to the dead letters.
  pub deliveries_without_redis :
      (down : (n : ℕ) → env.redis_fails n ≡ true) (no_mail : (n : ℕ) → env.mail_raises n ≡ true)
      (id a k : ℕ) (m : Message) (w : World)
      → m.event_id ≡ some id
      → m.registered ≡ true
      → metadata_attempt m.attempt ≡ some a
      → a < env.settings.rabbitmq_max_retries
      → (deliveries k m w).0 ≡ ok requeue
  unfolding deliveries
  deliveries_without_redis down no_mail id a zero m w known registered number low = refl
  deliveries_without_redis down no_mail id a (suc k) m w known registered number low = ground (
    arith,
    requeued_without_redis down no_mail id a m w known registered number low,
    deliveries_without_redis down no_mail id a k m (handle_message m w).1 known registered number
        low,
  )
