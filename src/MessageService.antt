-- ===== src/MessageService.antt =====
-- Backend/services/message.service.ts: sending a message with its outbox event, and reading a page.
pub mod Quiet
pub mod Sending
pub mod Closing
pub mod Delivery
pub mod Reading
pub mod Tests
use mern_chat_app.Common.{
  ℕ, Text, codes, text_eq, Bool, true, false, Option, none, some, List, [], ◌∷◌, map, head?,
  if◌then◌else◌,
}
use mern_chat_app.Conversations.{find_direct_conversation, create_direct_conversation, cast_pair}
use mern_chat_app.Database.{
  Db, Conversation, MessageRow, Exec, Runtime, query, connect, transaction, pure, throw,
  random_uuid, ◌>>=◌, ◌>>◌, User,
}
use mern_chat_app.Errors.{Result, ok, err, app, validation_error, not_found}
use mern_chat_app.Events.{
  CreateInput, MessageCreatedEvent, create_message_created_event, message_created_topic, to_js,
}
use mern_chat_app.Js.Trim.{trim}
use mern_chat_app.Messages.{
  create_message_with_client, find_messages_by_conversation, MessagePage, Position, MessageCursor,
  CursorCodec, encode_message_cursor, decode_message_cursor,
}
use mern_chat_app.Outbox.{OutboxInsert, insert_outbox_event}
use mern_chat_app.Users.{find_user_by_id}

pub record SendMessageInput : Type 0 where
  pub sender_id : Text
  pub receiver_id : Text
  pub message : Text
  pub correlation_id : Text

pub record SerializedMessage : Type 0 where
  pub id : Text
  pub sender_id : Text
  pub receiver_id : Text
  pub message : Text
  pub created_at : Text
  pub updated_at : Text

abbrev pub serialize_message : Runtime → MessageRow → Text → SerializedMessage
serialize_message rt m receiver_id = record {
  id = rt.print_uuid m.id;
  sender_id = rt.print_uuid m.sender_id;
  receiver_id = receiver_id;
  message = m.content;
  created_at = rt.iso m.created_at;
  updated_at = rt.iso m.updated_at;
}

pub record SendMessageResult : Type 0 where
  pub message : SerializedMessage
  pub conversation_id : Text

-- The event of a message.
abbrev pub committed_event :
    Runtime → SendMessageInput → Conversation → MessageRow → ℕ → MessageCreatedEvent
unfolding create_message_created_event
committed_event rt input c m event_id =
    create_message_created_event (rt.print_uuid event_id) (rt.iso rt.now) record {
      message_id = rt.print_uuid m.id;
      conversation_id = rt.print_uuid c.id;
      sender_id = input.sender_id;
      recipient_id = input.receiver_id;
      created_at = rt.iso m.created_at;
      correlation_id = input.correlation_id;
    }

-- The nine values that `insertOutboxEvent` binds, from the two ids among them.
abbrev pub outbox_insert : MessageCreatedEvent → Text → ℕ → ℕ → OutboxInsert
unfolding to_js
outbox_insert event partition_key id aggregate_id = record {
  id = id;
  aggregate_type = codes "conversation";
  aggregate_id = aggregate_id;
  event_type = event.event_type;
  event_version = event.version;
  topic = message_created_topic;
  partition_key = partition_key;
  payload = to_js event;
  headers =
      (codes "eventId", event.event_id)
      ∷ (codes "eventType", event.event_type)
      ∷ (codes "version", codes "1")
      ∷ (codes "correlationId", event.correlation_id)
      ∷ [];
}

-- `insertOutboxEvent` as a statement of the transaction.
unfoldable pub insert_event : Runtime → MessageCreatedEvent → Text → Exec (Unit {0})
unfolding query insert_outbox_event
insert_event rt event partition_key = query λ db.
    cast_pair rt (event.event_id, partition_key)
      λ id aggregate_id.
        elim (insert_outbox_event rt.now (outbox_insert event partition_key id aggregate_id)
          db.outbox) [ err e ↦ err e | ok t ↦ ok (tt, record db { outbox = t }) ]

-- The value that is returned behind COMMIT.
abbrev pub send_result : Runtime → SendMessageInput → Conversation → MessageRow → SendMessageResult
send_result rt input c m = record {
  message = serialize_message rt m input.receiver_id;
  conversation_id = rt.print_uuid c.id;
}

-- The statements between BEGIN and COMMIT, with the value that is returned behind them.
unfoldable pub send_body : Runtime → SendMessageInput → Conversation → ℕ → Exec SendMessageResult
unfolding create_message_with_client random_uuid insert_event
send_body rt input c message_id = do
  m ← create_message_with_client rt message_id c.id input.sender_id (trim input.message)
  event_id ← random_uuid rt
  insert_event rt (committed_event rt input c m event_id) (rt.print_uuid c.id)
  pure (send_result rt input c m)

-- `await findDirectConversation(...) ?? await createDirectConversation(...)`.
unfoldable pub find_or_create : Runtime → Text → Text → Exec Conversation
unfolding find_direct_conversation create_direct_conversation
find_or_create rt a b = do
  found ← find_direct_conversation rt a b
  elim found [ some c ↦ pure c | none ↦ create_direct_conversation rt a b ]

-- From the conversation on.
unfoldable pub send_in : Runtime → SendMessageInput → Conversation → Exec SendMessageResult
unfolding random_uuid connect transaction send_body
send_in rt input c = do
  message_id ← random_uuid rt
  connect
  transaction (send_body rt input c message_id)

unfoldable pub send_to : Runtime → SendMessageInput → Exec SendMessageResult
unfolding find_or_create send_in
send_to rt input = do c ← find_or_create rt input.sender_id input.receiver_id; send_in rt input c

-- With the receiver's row, if there is one.
unfoldable pub received : Runtime → SendMessageInput → Option User → Exec SendMessageResult
unfolding send_to
received rt input none =
    throw
      (app (record { message = codes "Receiver not found"; status_code = 404; code = not_found }))
received rt input (some u) = send_to rt input

unfoldable pub send_message : Runtime → SendMessageInput → Exec SendMessageResult
unfolding find_user_by_id received
send_message rt input w =
    if text_eq input.sender_id input.receiver_id
    then throw
        (app (record {
          message = codes "You cannot send a message to yourself";
          status_code = 400;
          code = validation_error;
        }))
        w
    else (find_user_by_id rt input.receiver_id >>= received rt input) w
