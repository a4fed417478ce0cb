-- ===== src/MessageService/Tests.antt =====
-- A message that is sent, and one whose COMMIT fails.
use mern_chat_app.Common.{codes, ◌≡◌, refl, true, false, [], ◌∷◌, none, ◌+◌, ◌⊎◌}
use mern_chat_app.Database.{World, durable, Runtime, connection_lost}
use mern_chat_app.Database.Samples.{sample_runtime, sample_world, sample_reads}
use mern_chat_app.Errors.{ok, err, plain, pg}
use mern_chat_app.MessageService.{SendMessageInput, SendMessageResult, send_message}
use mern_chat_app.MessageService.Sending.{send_atomic}
use mern_chat_app.MessageService.Delivery.{send_stores, IsStored}
use mern_chat_app.MessageService.Closing.{send_closes}

abbrev sample_input : SendMessageInput
sample_input = record {
  sender_id = 1 ∷ [];
  receiver_id = 2 ∷ [];
  message = codes " hello ";
  correlation_id = codes "request";
}

abbrev sample_result : SendMessageResult
sample_result = record {
  message = record {
    id = 101 ∷ [];
    sender_id = 1 ∷ [];
    receiver_id = 2 ∷ [];
    message = codes "hello";
    created_at = 1_000 ∷ [];
    updated_at = 1_000 ∷ [];
  };
  conversation_id = 100 ∷ [];
}

sends : (send_message sample_runtime sample_input sample_world).0 ≡ ok sample_result
unfolding send_message mern_chat_app.Users.find_user_by_id mern_chat_app.MessageService.received
    mern_chat_app.MessageService.send_to mern_chat_app.MessageService.find_or_create
    mern_chat_app.MessageService.send_in mern_chat_app.MessageService.send_body
    mern_chat_app.MessageService.insert_event mern_chat_app.Conversations.find_direct_conversation
    mern_chat_app.Conversations.create_direct_conversation mern_chat_app.Conversations.create_body
    mern_chat_app.Conversations.insert_or_resolve mern_chat_app.Conversations.resolve_conversation
    mern_chat_app.Conversations.ensure_membership
    mern_chat_app.Conversations.canonicalize_member_pair mern_chat_app.Database.transaction
    mern_chat_app.Database.begin mern_chat_app.Database.commit mern_chat_app.Database.rollback
    mern_chat_app.Database.query mern_chat_app.Database.connect mern_chat_app.Database.random_uuid
    mern_chat_app.Messages.create_message_with_client mern_chat_app.Outbox.insert_outbox_event
    mern_chat_app.Events.create_message_created_event mern_chat_app.Events.to_js
sends = refl

send_stores_example :
    IsStored sample_runtime sample_input sample_result sample_world.db
      (durable (send_message sample_runtime sample_input sample_world).1)
send_stores_example =
    send_stores sample_runtime sample_reads sample_input sample_world sample_result refl sends

-- The queries are answered up to the COMMIT of the message.
abbrev cut_off : World
cut_off = record sample_world {
  answers =
      true ∷ true ∷ true ∷ true ∷ true ∷ true ∷ true ∷ true ∷ true ∷ true ∷ true ∷ true ∷ false
      ∷ [];
}

cut :
    (send_message sample_runtime sample_input cut_off).0
    ≡ err (plain (codes "Connection terminated unexpectedly"))
unfolding send_message mern_chat_app.Users.find_user_by_id mern_chat_app.MessageService.received
    mern_chat_app.MessageService.send_to mern_chat_app.MessageService.find_or_create
    mern_chat_app.MessageService.send_in mern_chat_app.MessageService.send_body
    mern_chat_app.MessageService.insert_event mern_chat_app.Conversations.find_direct_conversation
    mern_chat_app.Conversations.create_direct_conversation mern_chat_app.Conversations.create_body
    mern_chat_app.Conversations.insert_or_resolve mern_chat_app.Conversations.resolve_conversation
    mern_chat_app.Conversations.ensure_membership
    mern_chat_app.Conversations.canonicalize_member_pair mern_chat_app.Database.transaction
    mern_chat_app.Database.begin mern_chat_app.Database.commit mern_chat_app.Database.rollback
    mern_chat_app.Database.query mern_chat_app.Database.connect mern_chat_app.Database.random_uuid
    mern_chat_app.Messages.create_message_with_client mern_chat_app.Outbox.insert_outbox_event
    mern_chat_app.Events.create_message_created_event mern_chat_app.Events.to_js
cut = refl

send_atomic_example :
    ((durable (send_message sample_runtime sample_input cut_off).1).messages
      ≡ sample_world.db.messages)
    × ((durable (send_message sample_runtime sample_input cut_off).1).outbox
        ≡ sample_world.db.outbox)
send_atomic_example =
    send_atomic sample_runtime sample_input cut_off
      (plain (codes "Connection terminated unexpectedly")) refl cut

-- The id of the new message is drawn again: its INSERT is refused, and rolled back.
abbrev clashing : Runtime
clashing = record sample_runtime { random_uuid = λ k. 60 + k }

abbrev to_third : SendMessageInput
to_third = record sample_input { receiver_id = 3 ∷ [] }

clash : (send_message clashing to_third sample_world).0 ≡ err (pg (codes "23505"))
unfolding send_message mern_chat_app.Users.find_user_by_id mern_chat_app.MessageService.received
    mern_chat_app.MessageService.send_to mern_chat_app.MessageService.find_or_create
    mern_chat_app.MessageService.send_in mern_chat_app.MessageService.send_body
    mern_chat_app.MessageService.insert_event mern_chat_app.Conversations.find_direct_conversation
    mern_chat_app.Conversations.canonicalize_member_pair mern_chat_app.Database.transaction
    mern_chat_app.Database.begin mern_chat_app.Database.commit mern_chat_app.Database.rollback
    mern_chat_app.Database.query mern_chat_app.Database.connect mern_chat_app.Database.random_uuid
    mern_chat_app.Messages.create_message_with_client
clash = refl

not_lost : ¬ ((send_message clashing to_third sample_world).0 ≡ err connection_lost)
not_lost h = cc (clash, h)

send_closes_example :
    ((send_message clashing to_third sample_world).1.saved ≡ none)
    × (((r : SendMessageResult) × ((send_message clashing to_third sample_world).0 ≡ ok r))
        ⊎ (((send_message clashing to_third sample_world).1.db.messages ≡ sample_world.db.messages)
            × ((send_message clashing to_third sample_world).1.db.outbox ≡ sample_world.db.outbox)))
send_closes_example = send_closes clashing to_third sample_world refl not_lost
