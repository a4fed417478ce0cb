-- ===== src/ConversationStore.antt =====
-- Frontend/src/state/conversationStore.ts: the messages that the client holds.
pub mod Merging
pub mod Tests
use mern_chat_app.Common.{
  ℕ, Text, text_eq, Bool, leb, any, if◌then◌else◌, Option, none, some, List, [], ◌∷◌, ◌++◌,
}
use mern_chat_app.Common.Sql.{order_by}
use mern_chat_app.Common.Sorting.{by_key}

-- `Message` of Frontend/src/types/api.ts; `created_at` is the value of `new Date(...).getTime()`.
pub record Message : Type 0 where
  pub id : Text
  pub sender_id : Text
  pub receiver_id : Text
  pub message : Text
  pub created_at : ℕ
  pub updated_at : Text

-- `Map.set`: an entry keeps its place.
abbrev pub set_message : Message → List Message → List Message
set_message m [] = m ∷ []
set_message m (x ∷ xs) =
    let rest = set_message m xs in if text_eq x.id m.id then m ∷ xs else x ∷ rest

-- One of the two loops.
abbrev pub set_all : List Message → List Message → List Message
set_all [] map_ = map_
set_all (m ∷ messages) map_ = set_all messages (set_message m map_)

unfoldable pub merge_unique_messages : List Message → List Message → List Message
merge_unique_messages current incoming =
    order_by (by_key (λ m. m.created_at)) (set_all incoming (set_all current []))

-- `PublicUser` of Frontend/src/types/api.ts.
pub record PublicUser : Type 0 where
  pub id : Text
  pub fullname : Text
  pub email : Text

pub record ConversationState : Type 0 where
  pub selected_conversation : Option PublicUser
  pub messages_by_conversation : List (Text × List Message)

-- `state.messagesByConversation[conversationId] ?? []`.
abbrev pub messages_of : Text → List (Text × List Message) → List Message
messages_of conversation_id [] = []
messages_of conversation_id ((k, v) ∷ entries) =
    let rest = messages_of conversation_id entries in if text_eq k conversation_id then v else rest

-- `{ ...messagesByConversation, [conversationId]: messages }`.
abbrev pub with_messages :
    Text → List Message → List (Text × List Message) → List (Text × List Message)
with_messages conversation_id messages [] = (conversation_id, messages) ∷ []
with_messages conversation_id messages ((k, v) ∷ entries) =
    let rest = with_messages conversation_id messages entries in
    if text_eq k conversation_id then (k, messages) ∷ entries else (k, v) ∷ rest

unfoldable pub set_selected_conversation : Option PublicUser → ConversationState → ConversationState
set_selected_conversation conversation state = record state { selected_conversation = conversation }

unfoldable pub merge_messages : Text → List Message → ConversationState → ConversationState
unfolding merge_unique_messages
merge_messages conversation_id messages state = record state {
  messages_by_conversation =
      with_messages conversation_id
        (merge_unique_messages (messages_of conversation_id state.messages_by_conversation)
          messages)
        state.messages_by_conversation;
}

unfoldable pub append_message : Text → Message → ConversationState → ConversationState
append_message conversation_id message state =
    let current_messages = messages_of conversation_id state.messages_by_conversation in
    if any (λ m. text_eq m.id message.id) current_messages then state else record state {
      messages_by_conversation =
          with_messages conversation_id (current_messages ++ message ∷ [])
            state.messages_by_conversation;
    }

unfoldable pub clear_messages : Text → ConversationState → ConversationState
clear_messages conversation_id state = record state {
  messages_by_conversation = with_messages conversation_id [] state.messages_by_conversation;
}
