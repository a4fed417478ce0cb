-- ===== src/Events/RoundTrip.antt =====
-- What `parseMessageCreatedEvent` makes of an event that `createMessageCreatedEvent` made.
use mern_chat_app.Common.{◌≤◌, ◌≡◌, Text, Bool, true, length, arith, ◌<◌}
use mern_chat_app.Errors.{ok}
use mern_chat_app.Js.Uuid.{is_uuid}
use mern_chat_app.Events.{
  CreateInput, create_message_created_event, to_js, parse_message_created_event,
}

-- The identifiers, times and correlation id of the event meet the contract.
pub record IsSendable (is_date : Text → Bool) (event_id occurred_at : Text) (input : CreateInput)
    : Type 0 where
  pub event : is_uuid event_id ≡ true
  pub message : is_uuid input.message_id ≡ true
  pub conversation : is_uuid input.conversation_id ≡ true
  pub sender : is_uuid input.sender_id ≡ true
  pub recipient : is_uuid input.recipient_id ≡ true
  pub occurred : is_date occurred_at ≡ true
  pub created : is_date input.created_at ≡ true
  pub correlated : 0 < length input.correlation_id
  pub short : length input.correlation_id ≤ 200

-- An event with identifiers that are UUIDs, valid times and a correlation id of 1 to 200 code units is
-- read back by the consumer's parser as it was created.
pub parse-create :
    (is_date : Text → Bool) (event_id occurred_at : Text) (input : CreateInput)
    → IsSendable is_date event_id occurred_at input
    → parse_message_created_event is_date
        (to_js (create_message_created_event event_id occurred_at input))
      ≡ ok (create_message_created_event event_id occurred_at input)
unfolding parse_message_created_event to_js create_message_created_event
parse-create is_date event_id occurred_at input h = ground arith
