-- ===== src/MessageController.antt =====
-- Backend/controller/message.controller.ts: the two handlers over the message service. Emitting an event to
-- a room is a call of Socket.IO.
use mern_chat_app.Common.{Text, codes, List, [], ◌∷◌, ◌++◌}
use mern_chat_app.Database.{Exec, Runtime, World}
use mern_chat_app.Errors.{Result, ok, err, Thrown, app, ErrorCode, internal_error}
use mern_chat_app.Js.{Js}
use mern_chat_app.MessageService.{SerializedMessage, SendMessageResult, send_message}
use mern_chat_app.MessageService.Reading.{MessagePageResult, get_messages}
use mern_chat_app.Messages.{CursorCodec}
use mern_chat_app.Users.{PublicUser}
use mern_chat_app.Validation.{get_message_page_options}

-- `getUserRoomName` of Backend/SocketIO/server.ts.
abbrev pub get_user_room_name : Text → Text
get_user_room_name user_id = codes "user:" ++ user_id

-- The counters of the handler: of a message, or of a failure with its code.
pub data MessageCount : Type 0 where
  created : MessageCount
  failed : ErrorCode → MessageCount

-- What `sendMessage` did: the body of its response 201, or the error that it throws, what was emitted to
-- which rooms, and the counters.
pub record Sending : Type 0 where
  pub result : Result SerializedMessage
  pub emitted : List (Text × SerializedMessage)
  pub counts : List MessageCount

abbrev pub error_code : Thrown → ErrorCode
error_code (app e) = e.code
error_code _ = internal_error

abbrev pub sending : Text → Result SendMessageResult → Sending
sending receiver_id (ok r) = record {
  result = ok r.message;
  emitted = (get_user_room_name receiver_id, r.message) ∷ [];
  counts = created ∷ [];
}
sending receiver_id (err e) = record {
  result = err e;
  emitted = [];
  counts = failed (error_code e) ∷ [];
}

unfoldable pub send_message_handler :
    Runtime → PublicUser → Text → Text → Text → World → Sending × World
unfolding send_message
send_message_handler rt user receiver_id message request_id w =
    let (r, w') =
      send_message rt
        (record {
          sender_id = rt.print_uuid user.id;
          receiver_id = receiver_id;
          message = message;
          correlation_id = request_id;
        })
        w in
    (sending receiver_id r, w')

-- `getMessage`, with the two parameters of the query; the page is the body of the response 200.
unfoldable pub get_message_handler :
    Runtime → CursorCodec → PublicUser → Text → Js → Js → Exec MessagePageResult
unfolding get_messages get_message_page_options
get_message_handler rt k user chat_user_id limit cursor =
    let (bounded, given) = get_message_page_options limit cursor in
    get_messages rt k (record {
      sender_id = rt.print_uuid user.id;
      chat_user_id = chat_user_id;
      limit = bounded;
      cursor = given;
    })
