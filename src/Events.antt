-- ===== src/Events.antt =====
-- Backend/events/contracts.ts: the `message.created` event, how it is made and how a consumer
-- reads it back.
pub mod RoundTrip
pub mod Tests
use mern_chat_app.Common.{
  ℕ, Text, codes, text_eq, Bool, true, false, ◌&&◌, ◌||◌, not, ◌==◌, ltb, length, Option, none,
  some, if◌then◌else◌,
}
use mern_chat_app.Errors.{Result, ok, err, Thrown, plain}
use mern_chat_app.Js.{Js, undefined, null, num, str, obj, Fields, end, field, is_record, prop}
use mern_chat_app.Js.Uuid.{is_uuid}

abbrev pub message_created_event : Text
message_created_event = codes "message.created"

abbrev pub message_created_version : ℕ
message_created_version = 1

abbrev pub message_created_topic : Text
message_created_topic = codes "chat.message.v1"

abbrev pub message_created_dlq_topic : Text
message_created_dlq_topic = codes "chat.message.dlq.v1"

pub record MessageCreatedData : Type 0 where
  pub message_id : Text
  pub conversation_id : Text
  pub sender_id : Text
  pub recipient_id : Text
  pub created_at : Text

-- `DomainEvent` at the one event type of the program.
pub record MessageCreatedEvent : Type 0 where
  pub event_id : Text
  pub event_type : Text
  pub aggregate_id : Text
  pub occurred_at : Text
  pub version : ℕ
  pub correlation_id : Text
  pub causation_id : Option Text
  pub producer : Text
  pub event_data : MessageCreatedData

pub record CreateInput : Type 0 where
  pub message_id : Text
  pub conversation_id : Text
  pub sender_id : Text
  pub recipient_id : Text
  pub created_at : Text
  pub correlation_id : Text

-- `event_id` is the value of `randomUUID()` and `occurred_at` that of `new Date().toISOString()`.
unfoldable pub create_message_created_event : Text → Text → CreateInput → MessageCreatedEvent
create_message_created_event event_id occurred_at input = record {
  event_id = event_id;
  event_type = message_created_event;
  aggregate_id = input.message_id;
  occurred_at = occurred_at;
  version = message_created_version;
  correlation_id = input.correlation_id;
  causation_id = none;
  producer = codes "chat-api";
  event_data = record {
    message_id = input.message_id;
    conversation_id = input.conversation_id;
    sender_id = input.sender_id;
    recipient_id = input.recipient_id;
    created_at = input.created_at;
  };
}

abbrev nullable : Option Text → Js
nullable none = null
nullable (some s) = str s

-- The value that `JSON.stringify` writes and `JSON.parse` reads back.
unfoldable pub to_js : MessageCreatedEvent → Js
to_js e = obj (
    field (codes "eventId") (str e.event_id) (
      field (codes "eventType") (str e.event_type) (
        field (codes "aggregateId") (str e.aggregate_id) (
          field (codes "occurredAt") (str e.occurred_at) (
            field (codes "version") (num e.version) (
              field (codes "correlationId") (str e.correlation_id) (
                field (codes "causationId") (nullable e.causation_id) (
                  field (codes "producer") (str e.producer)
                    (field (codes "data") (obj (data_fields e.event_data)) end)))))))))
  where
    data_fields : MessageCreatedData → Fields
    data_fields d = field (codes "messageId") (str d.message_id) (
        field (codes "conversationId") (str d.conversation_id) (
          field (codes "senderId") (str d.sender_id) (
            field (codes "recipientId") (str d.recipient_id)
              (field (codes "createdAt") (str d.created_at) end))))

abbrev is_text : Text → Js → Bool
is_text want (str s) = text_eq s want
is_text want _ = false

abbrev is_num : ℕ → Js → Bool
is_num want (num n) = n == want
is_num want _ = false

abbrev is_uuid_value : Js → Bool
is_uuid_value (str s) = is_uuid s
is_uuid_value _ = false

-- `is_date s` is `!Number.isNaN(Date.parse(s))`.
abbrev is_iso_timestamp : (Text → Bool) → Js → Bool
is_iso_timestamp is_date (str s) = is_date s
is_iso_timestamp is_date _ = false

abbrev is_correlation : Js → Bool
is_correlation (str s) = not (length s == 0) && not (ltb 200 (length s))
is_correlation _ = false

abbrev is_causation : Js → Bool
is_causation null = true
is_causation (str s) = true
is_causation _ = false

abbrev is_valid_data : (Text → Bool) → Js → Bool
is_valid_data is_date data_ =
    is_record data_
    && is_uuid_value (prop (codes "messageId") data_)
    && is_uuid_value (prop (codes "conversationId") data_)
    && is_uuid_value (prop (codes "senderId") data_)
    && is_uuid_value (prop (codes "recipientId") data_)
    && is_iso_timestamp is_date (prop (codes "createdAt") data_)

-- The negation of the long condition of `parseMessageCreatedEvent`.
unfoldable pub is_valid_event : (Text → Bool) → Js → Bool
is_valid_event is_date v =
    is_text message_created_event (prop (codes "eventType") v)
    && is_num message_created_version (prop (codes "version") v)
    && is_uuid_value (prop (codes "eventId") v)
    && is_uuid_value (prop (codes "aggregateId") v)
    && is_iso_timestamp is_date (prop (codes "occurredAt") v)
    && is_correlation (prop (codes "correlationId") v)
    && is_causation (prop (codes "causationId") v)
    && is_text (codes "chat-api") (prop (codes "producer") v)
    && is_valid_data is_date (prop (codes "data") v)

-- The texts that a valid event holds; the cast `value as unknown as MessageCreatedEvent`.
abbrev text_at : Text → Js → Text
text_at key v = elim (prop key v) [ str s ↦ s | _ ↦ codes "" ]

abbrev optional_text : Js → Option Text
optional_text (str s) = some s
optional_text _ = none

unfoldable pub as_event : Js → MessageCreatedEvent
as_event v = record {
  event_id = text_at (codes "eventId") v;
  event_type = text_at (codes "eventType") v;
  aggregate_id = text_at (codes "aggregateId") v;
  occurred_at = text_at (codes "occurredAt") v;
  version = elim (prop (codes "version") v) [ num n ↦ n | _ ↦ 0 ];
  correlation_id = text_at (codes "correlationId") v;
  causation_id = optional_text (prop (codes "causationId") v);
  producer = text_at (codes "producer") v;
  event_data = record {
    message_id = text_at (codes "messageId") (prop (codes "data") v);
    conversation_id = text_at (codes "conversationId") (prop (codes "data") v);
    sender_id = text_at (codes "senderId") (prop (codes "data") v);
    recipient_id = text_at (codes "recipientId") (prop (codes "data") v);
    created_at = text_at (codes "createdAt") (prop (codes "data") v);
  };
}

unfoldable pub parse_message_created_event : (Text → Bool) → Js → Result MessageCreatedEvent
unfolding is_valid_event as_event
parse_message_created_event is_date v =
    if is_record v
    then (if is_valid_event is_date v
        then ok (as_event v)
        else err (plain (codes "Invalid message.created event")))
    else err (plain (codes "Event payload must be an object"))
