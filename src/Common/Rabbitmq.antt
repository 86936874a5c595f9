-- ===== src/Common/Rabbitmq.antt =====
-- App/common/queue/rabbitmq.py: the calls that `declare_topology`, `publish` and `consume` make on a
-- channel, and where they lead a message. The connection is not modelled; whether `publish` raises is
-- said in Notifications/Events, and what happens to a message that arrives in Notifications/Consumer.
use fastapi_newyear.Base.{
  ℕ, ◌≡◌, Bool, true, false, ◌&&◌, Option, none, some, List, [], ◌∷◌, ◌++◌, Text, codes, text_eq,
  text_eq_refl, text_eq_sym, if◌then◌else◌, arith,
}
use fastapi_newyear.Config.{Settings}

-- All exchanges are durable and direct, and all queues are durable. A queue may say where its dead
-- messages go: to an exchange, with a routing key.
pub data ChannelCall : Type 0 where
  exchange_declare : Text → ChannelCall
  queue_declare : Text → Option (Text × Text) → ChannelCall
  queue_bind : Text → Text → Text → ChannelCall
  confirm_delivery : ChannelCall
  -- The exchange, the routing key, and whether the message is kept on disk.
  basic_publish : Text → Text → Bool → ChannelCall
  -- How many messages a consumer holds at most.
  basic_qos : ℕ → ChannelCall
  -- Without `auto_ack`: the handler acknowledges.
  basic_consume : Text → ChannelCall

-- The routing key of the registrations.
abbrev pub user_registered : Text
user_registered = codes "user.registered"

unfoldable pub declare_topology : Settings → List ChannelCall
declare_topology s =
    exchange_declare s.rabbitmq_exchange
    ∷ exchange_declare s.rabbitmq_dlx
    ∷ queue_declare s.queue_user_registered (some (s.rabbitmq_dlx, user_registered))
    ∷ queue_bind s.queue_user_registered s.rabbitmq_exchange user_registered
    ∷ queue_declare s.queue_user_registered_dlq none
    ∷ queue_bind s.queue_user_registered_dlq s.rabbitmq_dlx user_registered
    ∷ []

-- `(options or {}).get("persistent", True)`.
abbrev persistent_or_true : Option Bool → Bool
persistent_or_true none = true
persistent_or_true (some b) = b

unfoldable pub publish : Settings → Text → Text → Option Bool → List ChannelCall
publish s exchange routing_key persistent =
    declare_topology s
    ++ confirm_delivery ∷ basic_publish exchange routing_key (persistent_or_true persistent) ∷ []

unfoldable pub consume : Settings → Text → List ChannelCall
consume s queue = declare_topology s ++ basic_qos 1 ∷ basic_consume queue ∷ []

-- `publish_user_registered_event` and `UserRegisteredConsumer.run` call them with these arguments.
unfoldable pub publish_registration : Settings → List ChannelCall
publish_registration s = publish s s.rabbitmq_exchange user_registered (some true)

unfoldable pub consume_registrations : Settings → List ChannelCall
consume_registrations s = consume s s.queue_user_registered

-- The queues that a direct exchange hands a message to: those that are bound with the very key.
unfoldable pub routed : Text → Text → List ChannelCall → List Text
routed exchange key [] = []
routed exchange key (queue_bind q x k ∷ cs) =
    let rest = routed exchange key cs in
    if text_eq exchange x && text_eq key k then q ∷ rest else rest
routed exchange key (_ ∷ cs) = routed exchange key cs

-- The queues that get the published messages.
unfoldable pub delivered : List ChannelCall → List ChannelCall → List Text
delivered topology [] = []
delivered topology (basic_publish x k persistent ∷ cs) =
    routed x k topology ++ delivered topology cs
delivered topology (_ ∷ cs) = delivered topology cs

-- The queues that are read.
unfoldable pub consumed : List ChannelCall → List Text
consumed [] = []
consumed (basic_consume q ∷ cs) = q ∷ consumed cs
consumed (_ ∷ cs) = consumed cs

-- The queues that a message goes to when a queue gives it up.
unfoldable pub dead_lettered : Text → List ChannelCall → List ChannelCall → List Text
dead_lettered queue topology [] = []
dead_lettered queue topology (queue_declare q (some (x, k)) ∷ cs) =
    let rest = dead_lettered queue topology cs in
    if text_eq queue q then routed x k topology ++ rest else rest
dead_lettered queue topology (_ ∷ cs) = dead_lettered queue topology cs

-- A registration that is published reaches the queue that the consumer reads and no other. What that queue gives up goes
-- to the queue of the dead letters alone, and what this one gives up is gone. The two exchanges have different names, and
-- so have the two queues.
pub registration_lem :
    (s : Settings)
    → text_eq s.rabbitmq_exchange s.rabbitmq_dlx ≡ false
    → text_eq s.queue_user_registered_dlq s.queue_user_registered ≡ false
    → let topology = declare_topology s in
      (delivered topology (publish_registration s) ≡ consumed (consume_registrations s))
      × (dead_lettered s.queue_user_registered topology topology ≡ s.queue_user_registered_dlq ∷ [])
      × (dead_lettered s.queue_user_registered_dlq topology topology ≡ [])
unfolding declare_topology publish consume publish_registration consume_registrations routed
    delivered consumed dead_lettered
registration_lem s exchanges queues =
    let refl_exchange = text_eq_refl s.rabbitmq_exchange in
    let same_key = text_eq_refl user_registered in
    let refl_dlx = text_eq_refl s.rabbitmq_dlx in
    let refl_queue = text_eq_refl s.queue_user_registered in
    let other_way = text_eq_sym s.rabbitmq_exchange s.rabbitmq_dlx in
    (ground arith, ground arith, ground arith)
