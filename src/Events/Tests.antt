-- ===== src/Events/Tests.antt =====
-- One event there and back.
use mern_chat_app.Common.{codes, ◌≡◌, refl, true, arith, Text, Bool}
use mern_chat_app.Errors.{ok}
use mern_chat_app.Js.Uuid.{is_uuid}
use mern_chat_app.Events.{
  CreateInput, create_message_created_event, parse_message_created_event, to_js,
}
use mern_chat_app.Events.RoundTrip.{IsSendable, parse-create}

abbrev some_uuid : Text
some_uuid = codes "00000000-0000-4000-8000-000000000001"

abbrev date_text : Text
date_text = codes "2026-01-01T00:00:00.000Z"

abbrev any_date : Text → Bool
any_date s = true

abbrev sample : CreateInput
sample = record {
  message_id = some_uuid;
  conversation_id = some_uuid;
  sender_id = some_uuid;
  recipient_id = some_uuid;
  created_at = date_text;
  correlation_id = codes "request";
}

sample-IsSendable : IsSendable any_date some_uuid date_text sample
unfolding is_uuid
sample-IsSendable = record {
  event = refl;
  message = refl;
  conversation = refl;
  sender = refl;
  recipient = refl;
  occurred = refl;
  created = refl;
  correlated = omega arith;
  short = omega arith;
}

parse-create_example :
    parse_message_created_event any_date
      (to_js (create_message_created_event some_uuid date_text sample))
    ≡ ok (create_message_created_event some_uuid date_text sample)
parse-create_example = parse-create any_date some_uuid date_text sample sample-IsSendable
