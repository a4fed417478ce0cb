-- ===== src/Consumer.antt =====
-- Backend/events/message-notification.consumer.ts: what the notification consumer does with a
-- message of Kafka. Counters and log lines are left out.
pub mod Idempotence
pub mod Dispatch
pub mod Tests
use mern_chat_app.Common.{
  ℕ, Text, codes, text_eq, any, ◌==◌, ◌&&◌, if◌then◌else◌, Bool, true, false, Option, none, some,
  List, [], ◌∷◌, ◌++◌, length,
}
use mern_chat_app.Conversations.{has_user, cast_pair}
use mern_chat_app.Database.{
  World, Db, ProcessedEvent, Notification, Exec, Runtime, query, connect, begin, commit, rollback,
  pure, rethrow, cast_uuid, ◌>>=◌, ◌>>◌,
}
use mern_chat_app.Errors.{Result, ok, err, pg, plain, Thrown}
use mern_chat_app.Events.{MessageCreatedEvent, parse_message_created_event}
use mern_chat_app.Js.{Js}

pub data Outcome : Type 0 where
  processed duplicate : Outcome

abbrev pub is_processed_by : Text → ℕ → ProcessedEvent → Bool
is_processed_by consumer_name event_id p =
    text_eq p.consumer_name consumer_name && p.event_id == event_id

-- INSERT ... ON CONFLICT (consumer_name, event_id) DO NOTHING RETURNING event_id: whether a row came
-- back.
abbrev pub insert_processed : Text → ℕ → Db → Bool × Db
insert_processed consumer_name event_id db =
    if any (is_processed_by consumer_name event_id) db.processed_events then (false, db) else (
      true,
      record db {
        processed_events =
            db.processed_events
            ++ record { consumer_name = consumer_name; event_id = event_id } ∷ [];
      },
    )

abbrev pub is_notification : ℕ → ℕ → Notification → Bool
is_notification recipient_id message_id n =
    n.recipient_id == recipient_id && n.message_id == message_id

-- INSERT ... ON CONFLICT (recipient_id, message_id, type) DO NOTHING, with the two foreign keys.
abbrev pub insert_notification : ℕ → ℕ → Db → Result (Unit {0} × Db)
insert_notification recipient_id message_id db =
    if any (is_notification recipient_id message_id) db.notifications
    then ok (tt, db)
    else if has_user recipient_id db && any (λ m. m.id == message_id) db.messages
    then ok (
      tt,
      record db {
        notifications =
            db.notifications
            ++ record { recipient_id = recipient_id; message_id = message_id } ∷ [];
      },
    )
    else err (pg (codes "23503"))

unfoldable pub mark_processed : Runtime → Text → Text → Exec Bool
unfolding query
mark_processed rt consumer_name event_id = query λ db. elim (cast_uuid rt event_id) [
  | err e ↦ err e
  | ok i ↦ ok (insert_processed consumer_name i db)
]

unfoldable pub notify : Runtime → MessageCreatedEvent → Exec (Unit {0})
unfolding query
notify rt event = query λ db.
    cast_pair rt (event.event_data.recipient_id, event.event_data.message_id)
      λ r m. insert_notification r m db

-- The two ends of the transaction.
unfoldable pub finish : Runtime → MessageCreatedEvent → Bool → Exec Outcome
unfolding rollback commit notify
finish rt event false = do rollback; pure duplicate
finish rt event true = do notify rt event; commit; pure processed

-- The `try` block.
unfoldable pub process_body : Runtime → Text → MessageCreatedEvent → Exec Outcome
unfolding begin mark_processed finish
process_body rt consumer_name event = do
  begin
  fresh ← mark_processed rt consumer_name event.event_id
  finish rt event fresh

-- The `try` block with its `catch`: ROLLBACK, and the error again.
unfoldable pub process_on_client : Runtime → Text → MessageCreatedEvent → Exec Outcome
unfolding process_body rollback
process_on_client rt consumer_name event w =
    let (r, w') = process_body rt consumer_name event w in rethrow r w'

unfoldable pub process_message_created_event : Runtime → Text → MessageCreatedEvent → Exec Outcome
unfolding connect process_on_client
process_message_created_event rt consumer_name event = do
  connect
  process_on_client rt consumer_name event

-- The consumer's state: the database, the producer (`none` if there is none) as the answers to its
-- further sends, and the messages that it has sent to the dead-letter topic.
pub record ConsumerWorld : Type 0 where
  pub database : World
  pub producer : Option (List Bool)
  pub dead_letters : List Text

-- `publishToDlq`.
unfoldable pub publish_to_dlq : Text → ConsumerWorld → Result (Unit {0}) × ConsumerWorld
publish_to_dlq raw_value w = elim w.producer [
  | none ↦ (err (plain (codes "Kafka producer is unavailable for DLQ publication")), w)
  | some [] ↦ (ok tt, record w { dead_letters = w.dead_letters ++ raw_value ∷ [] })
  | some (true ∷ rest) ↦
      (ok tt, record w { producer = some rest; dead_letters = w.dead_letters ++ raw_value ∷ [] })
  | some (false ∷ rest) ↦ (err (plain (codes "send failed")), record w { producer = some rest })
]

-- `parseMessageCreatedEvent(JSON.parse(rawValue))`: `parse_json` is `none` where JSON.parse throws.
unfoldable pub parse_raw : (Text → Option Js) → (Text → Bool) → Text → Option MessageCreatedEvent
unfolding parse_message_created_event
parse_raw parse_json is_date raw_value = elim (parse_json raw_value) [
  | none ↦ none
  | some v ↦ elim (parse_message_created_event is_date v) [ ok e ↦ some e | err e ↦ none ]
]

abbrev pub acknowledged : Result Outcome → Result (Unit {0})
acknowledged (ok o) = ok tt
acknowledged (err e) = err e

-- The valid event that a message holds, or `none`, and the message itself.
unfoldable pub dispatch :
    Runtime
    → Text
    → Text
    → Option MessageCreatedEvent
    → ConsumerWorld
    → Result (Unit {0}) × ConsumerWorld
unfolding publish_to_dlq process_message_created_event
dispatch rt consumer_name raw_value none w = publish_to_dlq raw_value w
dispatch rt consumer_name raw_value (some event) w =
    let (r, database) = process_message_created_event rt consumer_name event w.database in
    (acknowledged r, record w { database = database })

-- `eachMessage`: a result `ok` commits the offset, an error has Kafka deliver the message again.
unfoldable pub each_message :
    Runtime
    → (Text → Option Js)
    → (Text → Bool)
    → Text
    → Option Text
    → ConsumerWorld
    → Result (Unit {0}) × ConsumerWorld
unfolding parse_raw dispatch
each_message rt parse_json is_date consumer_name none w = (ok tt, w)
each_message rt parse_json is_date consumer_name (some raw_value) w =
    if length raw_value == 0
    then (ok tt, w)
    else dispatch rt consumer_name raw_value (parse_raw parse_json is_date raw_value) w
