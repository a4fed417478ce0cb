-- ===== src/Kafka.antt =====
-- Backend/infra/kafka/client.ts: the two clients of Kafka, with the start and the stop of the consumer
-- (Backend/events/message-notification.consumer.ts) and of the relay. What kafkajs answers is a `KafkaTurn`.
pub mod Tests
use mern_chat_app.Common.{ℕ, Bool, true, false, not, ◌&&◌, ◌||◌, if◌then◌else◌, Option, none, some}
use mern_chat_app.Relay.Timer.{RelayState, start_outbox_relay, stop_outbox_relay}

-- `producerConnected`, `consumerConnected` and `runningConsumer`, the timer of the relay, and whether the
-- clients have a connection.
pub record KafkaState : Type 0 where
  pub producer_connected : Bool
  pub consumer_connected : Bool
  pub running_consumer : Bool
  pub relay : RelayState
  pub producer_open : Bool
  pub consumer_open : Bool

-- Whether each call returns.
pub record KafkaTurn : Type 0 where
  pub admin_connects : Bool
  pub creates_topics : Bool
  pub admin_disconnects : Bool
  pub producer_connects : Bool
  pub consumer_connects : Bool
  pub subscribes : Bool
  pub runs : Bool
  pub joins_group : Bool
  pub stops : Bool
  pub consumer_disconnects : Bool
  pub producer_disconnects : Bool

-- `getKafkaProducer`: whether there is one.
abbrev pub has_kafka_producer : KafkaState → Bool
has_kafka_producer s = s.producer_connected

abbrev pub is_healthy : Bool → KafkaState → Bool
is_healthy enabled s = not enabled || (s.producer_connected && s.consumer_connected)

-- `startMessageNotificationConsumer`: `false` if it throws.
unfoldable pub start_message_notification_consumer : KafkaTurn → KafkaState → Bool × KafkaState
start_message_notification_consumer turn s =
    if turn.subscribes
    then (turn.runs && turn.joins_group, record s { running_consumer = true })
    else (false, s)

-- `stopMessageNotificationConsumer`: `false` if it throws.
unfoldable pub stop_message_notification_consumer : KafkaTurn → KafkaState → Bool × KafkaState
stop_message_notification_consumer turn s =
    if s.running_consumer then (turn.stops, record s { running_consumer = false }) else (true, s)

-- The two best-effort disconnections, each if its flag is set, and the flags.
unfoldable pub disconnect_clients : KafkaTurn → KafkaState → KafkaState
disconnect_clients turn s = record s {
  consumer_open = s.consumer_open && not (s.consumer_connected && turn.consumer_disconnects);
  producer_open = s.producer_open && not (s.producer_connected && turn.producer_disconnects);
  consumer_connected = false;
  producer_connected = false;
}

unfoldable pub close_kafka_infrastructure : KafkaTurn → KafkaState → Bool × KafkaState
unfolding stop_outbox_relay stop_message_notification_consumer disconnect_clients
close_kafka_infrastructure turn s =
    let (done, stopped) =
      stop_message_notification_consumer turn (record s { relay = stop_outbox_relay s.relay }) in
    if done then (true, disconnect_clients turn stopped) else (false, stopped)

-- From the connection of the consumer on, and from that of the producer on.
unfoldable pub connect_consumer : KafkaTurn → KafkaState → Bool × KafkaState
unfolding start_message_notification_consumer start_outbox_relay
connect_consumer turn s =
    if turn.consumer_connects
    then (let (done, started) =
          start_message_notification_consumer turn
            (record s { consumer_open = true; consumer_connected = true }) in
        if done
        then (true, record started { relay = start_outbox_relay started.relay })
        else (false, started))
    else (false, s)

unfoldable pub connect_clients : KafkaTurn → KafkaState → Bool × KafkaState
unfolding connect_consumer
connect_clients turn s =
    if turn.producer_connects
    then connect_consumer turn (record s { producer_open = true; producer_connected = true })
    else (false, s)

-- The `try`: `false` if it throws.
unfoldable pub try_initialize : KafkaTurn → KafkaState → Bool × KafkaState
unfolding connect_clients
try_initialize turn s =
    if turn.admin_connects && turn.creates_topics && turn.admin_disconnects
    then connect_clients turn s
    else (false, s)

-- The `catch`.
unfoldable pub give_up : KafkaTurn → KafkaState → Option Bool × KafkaState
unfolding close_kafka_infrastructure
give_up turn s =
    let (done, closed) =
      close_kafka_infrastructure turn
        (record s { producer_connected = false; consumer_connected = false }) in
    (if done then some false else none, closed)

-- What `initializeKafkaInfrastructure` returns, or `none` if it throws.
unfoldable pub initialize_kafka_infrastructure :
    Bool → KafkaTurn → KafkaState → Option Bool × KafkaState
unfolding try_initialize give_up
initialize_kafka_infrastructure enabled turn s =
    if enabled
    then (let (done, s') = try_initialize turn s in
        if done then (some true, s') else give_up turn s')
    else (some false, s)
