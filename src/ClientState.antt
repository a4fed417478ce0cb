-- ===== src/ClientState.antt =====
-- The state machines of the client's contexts and hooks: Frontend/src/context/SocketContext.tsx,
-- Frontend/src/context/AuthProvider.tsx, Frontend/src/hooks/useSendMessage.ts and useSocketMessages.ts.
-- React, axios and socket.io-client are not code of the repository; each handler is a function of the state.
pub mod Tests
use mern_chat_app.Common.{
  ℕ, Text, codes, text_eq, Bool, true, false, not, ◌==◌, ◌||◌, if◌then◌else◌, Option, none, some,
  List, [], ◌∷◌, ◌++◌, ◌&&◌,
}
use mern_chat_app.ConversationStore.{ConversationState, Message, append_message}
use mern_chat_app.Js.Trim.{trim}
use mern_chat_app.Sockets.{AuthCode, auth_required, auth_invalid, auth_expired}

pub data SocketConnectionStatus : Type 0 where
  disconnected connecting connected reconnecting : SocketConnectionStatus

-- What the handlers ask of the rest of the client: `nextSocket.disconnect()`, `connect()`, `close()`, the
-- event `auth:expired`, and the request of `/api/user/me`.
pub data Request : Type 0 where
  disconnects connects closes expires asks_me : Request

-- The variables of one run of the effect, the two states, and the requests so far.
pub record SocketState : Type 0 where
  pub active : Bool
  pub suppress_disconnect_state : Bool
  pub connection_status : SocketConnectionStatus
  pub online_users : List Text
  pub requests : List Request

abbrev pub request : Request → SocketState → SocketState
request r s = record s { requests = s.requests ++ r ∷ [] }

-- The effect for a user, up to its return.
abbrev pub opened : SocketState → SocketState
opened s = record s {
  active = true;
  suppress_disconnect_state = false;
  connection_status = connecting;
}

-- The effect without a user.
abbrev pub signed_out : SocketState → SocketState
signed_out s = request closes (record s { online_users = []; connection_status = disconnected })

unfoldable pub handle_connect : SocketState → SocketState
handle_connect s = if s.active then record s { connection_status = connected } else s

unfoldable pub handle_disconnect : SocketState → SocketState
handle_disconnect s =
    if not s.active || s.suppress_disconnect_state
    then s
    else record s { connection_status = reconnecting; online_users = [] }

-- Behind the disconnection, by the code.
abbrev pub refused : AuthCode → SocketState → SocketState
refused auth_expired s = request asks_me (record s { connection_status = connecting })
refused _ s = request expires s

-- The code of the error, if it has one.
unfoldable pub handle_connect_error : Option AuthCode → SocketState → SocketState
handle_connect_error none s =
    if s.active then record s { connection_status = reconnecting; online_users = [] } else s
handle_connect_error (some code) s =
    if s.active
    then refused code (
        request disconnects (record s {
          connection_status = disconnected;
          online_users = [];
          suppress_disconnect_state = true;
        }))
    else s

-- The answer of `/api/user/me`: whether it came.
unfoldable pub handle_me : Bool → SocketState → SocketState
handle_me true s =
    if s.active then request connects (record s { suppress_disconnect_state = false }) else s
handle_me false s = if s.active then request expires s else s

unfoldable pub handle_online_users : List Text → SocketState → SocketState
handle_online_users user_ids s = if s.active then record s { online_users = user_ids } else s

-- What the effect returns.
unfoldable pub clean_up : SocketState → SocketState
clean_up s = request closes (record s { active = false; connection_status = disconnected })

pub data AuthStatus : Type 0 where
  loading authenticated unauthenticated : AuthStatus

-- The user by the text of the id.
pub record AuthState : Type 0 where
  pub auth_user : Option Text
  pub auth_status : AuthStatus

unfoldable pub set_auth_user : Option Text → AuthState → AuthState
set_auth_user none s = record { auth_user = none; auth_status = unauthenticated }
set_auth_user (some u) s = record { auth_user = some u; auth_status = authenticated }

-- An answer of the server: a user, or an error with its status, if there is a response.
pub data Answer : Type 0 where
  user : Text → Answer
  failed : Option ℕ → Answer

abbrev pub if_mounted : Bool → Option Text → AuthState → AuthState
if_mounted mounted o s = if mounted then set_auth_user o s else s

abbrev pub is_unauthorized : Option ℕ → Bool
is_unauthorized none = false
is_unauthorized (some n) = n == 401

abbrev pub from_refresh : Answer → Option Text
from_refresh (user u) = some u
from_refresh (failed status) = none

-- `restoreSession`, with the answers of `/api/user/me` and of `/api/user/refresh`.
unfoldable pub restore_session : Bool → Answer → Answer → AuthState → AuthState
unfolding set_auth_user
restore_session mounted (user u) refresh s = if_mounted mounted (some u) s
restore_session mounted (failed status) refresh s =
    if_mounted mounted (if is_unauthorized status then from_refresh refresh else none) s

unfoldable pub handle_auth_expired : Bool → AuthState → AuthState
unfolding set_auth_user
handle_auth_expired mounted s = if_mounted mounted none s

-- `sendMessage` of useSendMessage: what it returns and the store, with the answer of the server, `none` if
-- the request fails. The flag `loading` is false again at the end.
abbrev pub sent : Text → Option Message → ConversationState → Bool × ConversationState
sent conversation_id none state = (false, state)
sent conversation_id (some m) state = (true, append_message conversation_id m state)

abbrev pub is_blank : Text → Bool
is_blank [] = true
is_blank (c ∷ s) = false

unfoldable pub send_message :
    Bool → Option Text → Text → Option Message → ConversationState → Bool × ConversationState
unfolding append_message
send_message is_loading none message answer state = (false, state)
send_message is_loading (some conversation_id) message answer state =
    if is_blank conversation_id || is_blank (trim message) || is_loading
    then (false, state)
    else sent conversation_id answer state

-- `handleNewMessage` of useSocketMessages, with the id of the selected conversation.
unfoldable pub handle_new_message : Option Text → Message → ConversationState → ConversationState
unfolding append_message
handle_new_message none message state = state
handle_new_message (some selected) message state =
    if not (is_blank selected)
      && (text_eq message.sender_id selected || text_eq message.receiver_id selected)
    then append_message selected message state
    else state
