-- ===== src/Notifications/Consumer/Once.antt =====
-- A welcome e-mail that went out is not sent again.
use fastapi_newyear.Base.{ℕ, ◌+◌, ◌*◌, ◌<◌, ◌≡◌, true, false, none, some, arith, lt→ltb}
use fastapi_newyear.Errors.{ok}
use fastapi_newyear.Config.{second}
use fastapi_newyear.Env.{Env}
use fastapi_newyear.Redis.{Dump, key_eq, key_eq_refl, processed}
use fastapi_newyear.World.{World}
use fastapi_newyear.Common.Cache
use fastapi_newyear.Common.Cache.Client
use fastapi_newyear.Common.Cache.Client.{peek, set_nx}
use fastapi_newyear.Notifications.Consumer.{
  Message, ack, day, metadata_attempt, processed_key, attempt_key, is_processed, mark_processed,
  next_attempt, send_welcome_email, handle_message,
}

module _ ⦃env : Env⦄ where
  pub keys_differ :
      (id : ℕ)
      → (key_eq (attempt_key id) (processed_key id) ≡ false)
        × (key_eq (processed_key id) (attempt_key id) ≡ false)
  unfolding processed_key attempt_key Cache.key
  keys_differ id = (ground arith, ground arith)

  processed_answers :
      (up : (n : ℕ) → env.redis_fails n ≡ false) (id : ℕ) (m : Message) (a : ℕ) (w : World)
      → m.event_id ≡ some id
      → m.registered ≡ true
      → metadata_attempt m.attempt ≡ some a
      → peek w.now (processed_key id) w.server ≡ some processed
      → ((handle_message m w).0 ≡ ok ack) × ((handle_message m w).1.mailed ≡ w.mailed)
  unfolding handle_message next_attempt is_processed Cache.get Client.get
  processed_answers up id m a w known registered number done =
      let d1 : Dump = (env.redis.incr w.now (attempt_key id) w.server.dump).1 in
      let differ = keys_differ id in
      ground (
        arith,
        up w.server.calls,
        up (w.server.calls + 1),
        up (w.server.calls + 2),
        env.redis.get-incr w.now (attempt_key id) (processed_key id) w.server.dump,
        env.redis.get-expire w.now w.now (attempt_key id) (processed_key id) day d1 (omega arith),
      )

  marked :
      (up : (n : ℕ) → env.redis_fails n ≡ false) (id : ℕ) (m : Message) (a t : ℕ) (w : World)
      → m.event_id ≡ some id
      → m.registered ≡ true
      → metadata_attempt m.attempt ≡ some a
      → peek w.now (processed_key id) w.server ≡ none
      → t < w.now + day * second
      → (handle_message m w).0 ≡ ok ack
      → peek t (processed_key id) (handle_message m w).1.server ≡ some processed
  unfolding handle_message next_attempt is_processed mark_processed send_welcome_email Cache.get
      Client.get set_nx Cache.del_key Client.delete
  marked up id m a t w known registered number fresh early h =
      let d1 : Dump = (env.redis.incr w.now (attempt_key id) w.server.dump).1 in
      let d2 : Dump = env.redis.expire w.now (attempt_key id) day d1 in
      let differ = keys_differ id in
      let in_time = lt→ltb t (w.now + day * second) early in
      ground (
        arith,
        up w.server.calls,
        up (w.server.calls + 1),
        up (w.server.calls + 2),
        up (w.server.calls + 3),
        up (w.server.calls + 4),
        env.redis.get-incr w.now (attempt_key id) (processed_key id) w.server.dump,
        env.redis.get-expire w.now w.now (attempt_key id) (processed_key id) day d1 (omega arith),
        env.redis.set_nx_lem w.now (processed_key id) processed day d2,
        env.redis.get-set t w.now (processed_key id) (processed_key id) processed day d2,
        env.redis.get-delete t (attempt_key id) (processed_key id)
            (env.redis.set w.now (processed_key id) processed day d2),
        key_eq_refl (processed_key id),
      )

  -- A message of a registration whose e-mail was sent and acknowledged for the first time is only acknowledged
  -- when it is delivered again within a day: no second e-mail goes out. No call of Redis fails.
  pub handle_message_once :
      (up : (n : ℕ) → env.redis_fails n ≡ false) (id : ℕ) (m : Message) (a t : ℕ) (w : World)
      → m.event_id ≡ some id
      → m.registered ≡ true
      → metadata_attempt m.attempt ≡ some a
      → peek w.now (processed_key id) w.server ≡ none
      → t < w.now + day * second
      → (handle_message m w).0 ≡ ok ack
      → let w' = record (handle_message m w).1 { now = t } in
        ((handle_message m w').0 ≡ ok ack) × ((handle_message m w').1.mailed ≡ w'.mailed)
  handle_message_once up id m a t w known registered number fresh early h =
      processed_answers up id m a (record (handle_message m w).1 { now = t }) known registered
        number (marked up id m a t w known registered number fresh early h)
