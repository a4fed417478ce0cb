-- ===== src/MessageService/Reading.antt =====
-- `getMessages` of Backend/services/message.service.ts.
use mern_chat_app.Common.{
  ℕ, Text, codes, text_eq, length, ◌==◌, Bool, Option, none, some, List, map, head?, if◌then◌else◌,
}
use mern_chat_app.Conversations.{find_direct_conversation}
use mern_chat_app.Database.{Conversation, Exec, Runtime, query, pure, throw, cast_uuid, ◌>>=◌}
use mern_chat_app.Errors.{Result, ok, err, Thrown, app, ErrorCode, validation_error, not_found}
use mern_chat_app.MessageService.{SerializedMessage, serialize_message}
use mern_chat_app.Messages.{
  find_messages_by_conversation, MessagePage, MessageCursor, CursorCodec, encode_message_cursor,
  decode_message_cursor,
}
use mern_chat_app.Users.{find_user_by_id}

pub record GetMessagesInput : Type 0 where
  pub sender_id : Text
  pub chat_user_id : Text
  pub limit : ℕ
  pub cursor : Option Text

pub record MessagePageResult : Type 0 where
  pub messages : List SerializedMessage
  pub next_cursor : Option Text
  pub has_more : Bool
  pub limit : ℕ

abbrev failure : Text → ℕ → ErrorCode → Thrown
failure message status_code code =
    app (record { message = message; status_code = status_code; code = code })

-- The statement of `findMessagesByConversation`, with the cursor's texts bound to its parameters.
unfoldable pub find_page : Runtime → ℕ → ℕ → Option MessageCursor → Exec MessagePage
unfolding query find_messages_by_conversation
find_page rt conversation_id limit none =
    query λ db. ok (find_messages_by_conversation rt conversation_id limit none db.messages, db)
find_page rt conversation_id limit (some c) = query λ db. elim (cast_uuid rt c.id) [
  | err e ↦ err e
  | ok id ↦ ok (
    find_messages_by_conversation rt conversation_id limit
        (some (rt.read_timestamp c.created_at, id)) db.messages,
    db,
  )
]

-- The cursor of the next page: the first message of the page, which is its oldest.
abbrev pub next_cursor : Runtime → CursorCodec → MessagePage → Option Text
unfolding encode_message_cursor
next_cursor rt k page =
    if page.has_more
    then elim (head? page.messages) [
      | none ↦ none
      | some oldest ↦ some (
          encode_message_cursor k
            (record { created_at = rt.iso oldest.created_at; id = rt.print_uuid oldest.id }))
    ]
    else none

abbrev pub page_result : Runtime → CursorCodec → GetMessagesInput → MessagePage → MessagePageResult
page_result rt k input page = record {
  messages =
      map
        (λ m. serialize_message rt m (
          if text_eq (rt.print_uuid m.sender_id) input.sender_id
          then input.chat_user_id
          else input.sender_id))
        page.messages;
  next_cursor = next_cursor rt k page;
  has_more = page.has_more;
  limit = input.limit;
}

-- `cursor ? decodeMessageCursor(cursor) ?? undefined : undefined`, with the check behind it: an empty
-- text is no cursor.
unfoldable pub checked_cursor : CursorCodec → Option Text → Result (Option MessageCursor)
unfolding decode_message_cursor
checked_cursor k none = ok none
checked_cursor k (some s) = if length s == 0 then ok none else elim (decode_message_cursor k s) [
  | none ↦ err (failure (codes "Cursor is invalid or malformed") 400 validation_error)
  | some c ↦ ok (some c)
]

abbrev lift : {A : Type 0} → Result A → Exec A
lift (ok a) = pure a
lift (err e) = throw e

-- From the conversation on.
unfoldable pub get_in :
    Runtime → CursorCodec → GetMessagesInput → Conversation → Exec MessagePageResult
unfolding checked_cursor find_page
get_in rt k input c = do
  cursor ← lift (checked_cursor k input.cursor)
  page ← find_page rt c.id input.limit cursor
  pure (page_result rt k input page)

unfoldable pub get_of : Runtime → CursorCodec → GetMessagesInput → Exec MessagePageResult
unfolding find_direct_conversation get_in
get_of rt k input = do
  c ← find_direct_conversation rt input.sender_id input.chat_user_id
  elim c [
    | none ↦ throw (failure (codes "Conversation not found") 404 not_found)
    | some c ↦ get_in rt k input c
  ]

unfoldable pub get_messages : Runtime → CursorCodec → GetMessagesInput → Exec MessagePageResult
unfolding find_user_by_id get_of
get_messages rt k input w =
    if text_eq input.sender_id input.chat_user_id
    then throw
        (failure (codes "You cannot access a conversation with yourself") 400 validation_error) w
    else (do
      user ← find_user_by_id rt input.chat_user_id
      elim user [
        | none ↦ throw (failure (codes "User not found") 404 not_found)
        | some u ↦ get_of rt k input
      ])
        w
