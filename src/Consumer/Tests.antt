-- ===== src/Consumer/Tests.antt =====
-- One event delivered twice, a delivery that fails, and a message that holds no event.
use mern_chat_app.Common.{
  ℕ, Text, codes, ◌≡◌, refl, arith, true, false, some, none, [], ◌∷◌, Bool, Option,
}
use mern_chat_app.Consumer.{
  process_message_created_event, processed, duplicate, ConsumerWorld, each_message,
  process_on_client, process_body, mark_processed, finish, notify, dispatch, publish_to_dlq,
  parse_raw,
}
use mern_chat_app.Consumer.Idempotence.{redeliver, deliver_atomic, deliver_lem, IsDelivered}
use mern_chat_app.Consumer.Dispatch.{each_message_settles, IsSettled}
use mern_chat_app.Database.{World, durable, query, connect, begin, commit, rollback}
use mern_chat_app.Database.Samples.{sample_runtime, sample_world}
use mern_chat_app.Errors.{ok, err, plain}
use mern_chat_app.Events.{MessageCreatedEvent}
use mern_chat_app.Js.{Js}

abbrev arrived : MessageCreatedEvent
arrived = record {
  event_id = 90 ∷ [];
  event_type = codes "message.created";
  aggregate_id = 60 ∷ [];
  occurred_at = codes "now";
  version = 1;
  correlation_id = codes "request";
  causation_id = none;
  producer = codes "chat-api";
  event_data = record {
    message_id = 60 ∷ [];
    conversation_id = 50 ∷ [];
    sender_id = 1 ∷ [];
    recipient_id = 3 ∷ [];
    created_at = codes "now";
  };
}

abbrev group : Text
group = codes "notifications"

delivers :
    (process_message_created_event sample_runtime group arrived sample_world).0 ≡ ok processed
unfolding process_message_created_event process_on_client process_body mark_processed finish notify
    query connect begin commit rollback
delivers = refl

deliver_lem_example :
    (i : ℕ) × (sample_runtime.read_uuid arrived.event_id ≡ some i)
    × IsDelivered sample_runtime group arrived i processed sample_world.db
        (durable (process_message_created_event sample_runtime group arrived sample_world).1)
deliver_lem_example = deliver_lem sample_runtime group arrived sample_world processed refl delivers

abbrev after_delivery : World
after_delivery = record sample_world {
  db = durable (process_message_created_event sample_runtime group arrived sample_world).1;
}

delivers_again :
    (process_message_created_event sample_runtime group arrived after_delivery).0 ≡ ok duplicate
unfolding process_message_created_event process_on_client process_body mark_processed finish notify
    query connect begin commit rollback
delivers_again = refl

redeliver_example :
    (duplicate ≡ duplicate)
    × (durable (process_message_created_event sample_runtime group arrived after_delivery).1
        ≡ after_delivery.db)
redeliver_example =
    redeliver sample_runtime group arrived sample_world after_delivery processed duplicate refl
      delivers refl refl delivers_again

abbrev no_commit : World
no_commit = record sample_world { answers = true ∷ true ∷ true ∷ true ∷ false ∷ [] }

fails :
    (process_message_created_event sample_runtime group arrived no_commit).0
    ≡ err (plain (codes "Connection terminated unexpectedly"))
unfolding process_message_created_event process_on_client process_body mark_processed finish notify
    query connect begin commit rollback
fails = refl

deliver_atomic_example :
    durable (process_message_created_event sample_runtime group arrived no_commit).1
    ≡ sample_world.db
deliver_atomic_example =
    deliver_atomic sample_runtime group arrived no_commit
      (plain (codes "Connection terminated unexpectedly")) refl fails

abbrev consuming : ConsumerWorld
consuming = record { database = sample_world; producer = some []; dead_letters = [] }

abbrev no_json : Text → Option Js
no_json s = none

abbrev no_date : Text → Bool
no_date s = false

each_message_settles_example :
    IsSettled sample_runtime no_json no_date group
      (codes "x")
      consuming
      (each_message sample_runtime no_json no_date group (some (codes "x")) consuming).1
unfolding each_message dispatch publish_to_dlq parse_raw
each_message_settles_example =
    each_message_settles sample_runtime no_json no_date group (codes "x") consuming (omega arith)
      refl refl
