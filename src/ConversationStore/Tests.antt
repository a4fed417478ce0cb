-- ===== src/ConversationStore/Tests.antt =====
-- A message that arrives by both ways.
use mern_chat_app.Common.{
  Text, codes, ◌≡◌, refl, none, [], ◌∷◌, ◌||◌, Bool-cases, text_eq, inl, inr,
}
use mern_chat_app.Common.Sorting.{IsOrdered}
use mern_chat_app.ConversationStore.{
  Message, ConversationState, merge_unique_messages, append_message, messages_of,
}
use mern_chat_app.ConversationStore.Merging.{IsUnique, has_id, merge_lem, Change-IsUnique, appends}

abbrev hello : Message
hello = record {
  id = codes "m1";
  sender_id = codes "a";
  receiver_id = codes "b";
  message = codes "hello";
  created_at = 20;
  updated_at = codes "t";
}

abbrev earlier : Message
earlier = record hello { id = codes "m0"; created_at = 10 }

merges_once : merge_unique_messages (hello ∷ []) (earlier ∷ hello ∷ []) ≡ earlier ∷ hello ∷ []
unfolding merge_unique_messages
merges_once = refl

merge_lem_example :
    IsUnique (merge_unique_messages (hello ∷ []) (earlier ∷ hello ∷ []))
    × IsOrdered (λ m. m.created_at) (merge_unique_messages (hello ∷ []) (earlier ∷ hello ∷ []))
    × ((id : Text)
        → has_id id (merge_unique_messages (hello ∷ []) (earlier ∷ hello ∷ []))
          ≡ (has_id id (earlier ∷ hello ∷ []) || has_id id (hello ∷ [])))
merge_lem_example = merge_lem (hello ∷ []) (earlier ∷ hello ∷ [])

abbrev holding : ConversationState
holding = record {
  selected_conversation = none;
  messages_by_conversation = (codes "c", hello ∷ []) ∷ [];
}

holding-IsUnique : (k : Text) → IsUnique (messages_of k holding.messages_by_conversation)
holding-IsUnique k = elim (Bool-cases (text_eq (codes "c") k)) [
  | inl e ↦ rw e (refl, tt)
  | inr e ↦ rw e tt
]

Change-IsUnique_example :
    IsUnique (
      messages_of (codes "c") (append_message (codes "c") earlier holding).messages_by_conversation)
Change-IsUnique_example =
    Change-IsUnique holding (append_message (codes "c") earlier holding)
      (appends holding (codes "c") earlier) holding-IsUnique (codes "c")
