-- ===== src/Kafka/Tests.antt =====
-- A start that fails behind the producer, and one that succeeds and is closed again.
use mern_chat_app.Common.{◌≡◌, refl, true, false, some}
use mern_chat_app.Kafka.{
  KafkaState, KafkaTurn, initialize_kafka_infrastructure, close_kafka_infrastructure,
  try_initialize, give_up, connect_clients, connect_consumer, start_message_notification_consumer,
  stop_message_notification_consumer, disconnect_clients,
}
use mern_chat_app.Relay.Timer.{initial, start_outbox_relay, stop_outbox_relay, begin_poll}

abbrev unconnected : KafkaState
unconnected = record {
  producer_connected = false;
  consumer_connected = false;
  running_consumer = false;
  relay = initial;
  producer_open = false;
  consumer_open = false;
}

abbrev all_answered : KafkaTurn
all_answered = record {
  admin_connects = true;
  creates_topics = true;
  admin_disconnects = true;
  producer_connects = true;
  consumer_connects = true;
  subscribes = true;
  runs = true;
  joins_group = true;
  stops = true;
  consumer_disconnects = true;
  producer_disconnects = true;
}

-- The consumer's connection is refused, and the producer stays open.
producer_left_open :
    initialize_kafka_infrastructure true
      (record all_answered { consumer_connects = false })
      unconnected
    ≡ (some false, record unconnected { producer_open = true })
unfolding initialize_kafka_infrastructure try_initialize give_up connect_clients connect_consumer
    close_kafka_infrastructure stop_message_notification_consumer disconnect_clients
    stop_outbox_relay
producer_left_open = refl

closed_again :
    (close_kafka_infrastructure all_answered
      (initialize_kafka_infrastructure true all_answered unconnected).1).1.producer_open
    ≡ false
unfolding initialize_kafka_infrastructure try_initialize connect_clients connect_consumer
    close_kafka_infrastructure stop_message_notification_consumer disconnect_clients
    stop_outbox_relay start_message_notification_consumer start_outbox_relay begin_poll
closed_again = refl
