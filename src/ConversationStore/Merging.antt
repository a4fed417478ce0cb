-- ===== src/ConversationStore/Merging.antt =====
-- The ids of the messages that the store holds, under `mergeUniqueMessages` and the operations.
use mern_chat_app.Common.{
  ◌≡◌, Text, text_eq, Bool, false, any, List, [], ◌∷◌, ◌++◌, arith, ◌||◌, Bool-cases, inl,
  eq_of_text_eq, inr, ◌∙◌, text_eq-sym, refl, ap, Option,
}
use mern_chat_app.ConversationStore.{
  Message, set_message, set_all, messages_of, with_messages, append_message, merge_messages,
  clear_messages, ConversationState, merge_unique_messages, set_selected_conversation,
}
use mern_chat_app.Common.Sql.{insert_by, order_by}
use mern_chat_app.Common.Sorting.{IsOrdered, by_key, order_by-IsOrdered}
use mern_chat_app.ConversationStore.{PublicUser}

abbrev pub has_id : Text → List Message → Bool
has_id id xs = any (λ m. text_eq m.id id) xs

-- No two messages of a list have the same id.
abbrev pub IsUnique : List Message → Type 0
IsUnique [] = Unit
IsUnique (m ∷ xs) = (has_id m.id xs ≡ false) × IsUnique xs

has_id-set :
    (id : Text) (m : Message) (xs : List Message)
    → has_id id (set_message m xs) ≡ (text_eq m.id id || has_id id xs)
has_id-set id m [] = ground arith
has_id-set id m (x ∷ xs) = elim (Bool-cases (text_eq x.id m.id)) [
  | inl e ↦ rw (e, eq_of_text_eq x.id m.id e) (ground arith)
  | inr e ↦ rw (e) (ground (arith, has_id-set id m xs))
]

set-IsUnique : (m : Message) (xs : List Message) → IsUnique xs → IsUnique (set_message m xs)
set-IsUnique m [] u = (refl, tt)
set-IsUnique m (x ∷ xs) u = elim (Bool-cases (text_eq x.id m.id)) [
  | inl e ↦ rw (e) (rw (← eq_of_text_eq x.id m.id e) u.0, u.1)
  | inr e ↦
      rw (e)
        (has_id-set x.id m xs ∙ ground (arith, text_eq-sym x.id m.id, u.0), set-IsUnique m xs u.1)
]

set_all-IsUnique : (messages map_ : List Message) → IsUnique map_ → IsUnique (set_all messages map_)
set_all-IsUnique [] map_ u = u
set_all-IsUnique (m ∷ messages) map_ u =
    set_all-IsUnique messages (set_message m map_) (set-IsUnique m map_ u)

has_id-set_all :
    (id : Text) (messages map_ : List Message)
    → has_id id (set_all messages map_) ≡ (has_id id messages || has_id id map_)
has_id-set_all id [] map_ = refl
has_id-set_all id (m ∷ messages) map_ =
    has_id-set_all id messages (set_message m map_)
    ∙ ap (λ b. has_id id messages || b) (has_id-set id m map_)
    ∙ ground arith

module _ (le : Message → Message → Bool) where
  has_id-insert :
      (id : Text) (m : Message) (xs : List Message)
      → has_id id (insert_by le m xs) ≡ (text_eq m.id id || has_id id xs)
  has_id-insert id m [] = refl
  has_id-insert id m (x ∷ xs) = elim (Bool-cases (le m x)) [
    | inl e ↦ rw (e) refl
    | inr e ↦ rw (e) (ground (arith, has_id-insert id m xs))
  ]

  insert-IsUnique :
      (m : Message) (xs : List Message)
      → has_id m.id xs ≡ false
      → IsUnique xs
      → IsUnique (insert_by le m xs)
  insert-IsUnique m [] h u = (refl, tt)
  insert-IsUnique m (x ∷ xs) h u = elim (Bool-cases (le m x)) [
    | inl e ↦ rw (e) (h, u)
    | inr e ↦ rw (e) (
      has_id-insert x.id m xs ∙ ground (arith, text_eq-sym x.id m.id, u.0, h),
      insert-IsUnique m xs (ground arith) u.1,
    )
  ]

  has_id-order : (id : Text) (xs : List Message) → has_id id (order_by le xs) ≡ has_id id xs
  has_id-order id [] = refl
  has_id-order id (x ∷ xs) =
      has_id-insert id x (order_by le xs) ∙ ap (λ b. text_eq x.id id || b) (has_id-order id xs)

  order-IsUnique : (xs : List Message) → IsUnique xs → IsUnique (order_by le xs)
  order-IsUnique [] u = tt
  order-IsUnique (x ∷ xs) u =
      insert-IsUnique x (order_by le xs) (has_id-order x.id xs ∙ u.0) (order-IsUnique xs u.1)

-- Merging keeps every id that was held or arrives and adds no other, holds each id once, and orders
-- the messages by their time.
pub merge_lem :
    (current incoming : List Message)
    → IsUnique (merge_unique_messages current incoming)
      × IsOrdered (λ m. m.created_at) (merge_unique_messages current incoming)
      × ((id : Text)
          → has_id id (merge_unique_messages current incoming)
            ≡ (has_id id incoming || has_id id current))
unfolding merge_unique_messages
merge_lem current incoming = (
  order-IsUnique (by_key (λ m. m.created_at)) (set_all incoming (set_all current []))
      (set_all-IsUnique incoming (set_all current []) (set_all-IsUnique current [] tt)),
  order_by-IsOrdered (λ m. m.created_at) (set_all incoming (set_all current [])),
  λ id.
      has_id-order (by_key (λ m. m.created_at)) id (set_all incoming (set_all current []))
      ∙ has_id-set_all id incoming (set_all current [])
      ∙ ap (λ b. has_id id incoming || b) (has_id-set_all id current [])
      ∙ ground arith,
)

-- One operation of the store.
pub data Change : ConversationState → ConversationState → Type 0 where
  selects :
      (s : ConversationState) (c : Option PublicUser) → Change s (set_selected_conversation c s)
  merges :
      (s : ConversationState) (k : Text) (messages : List Message)
      → Change s (merge_messages k messages s)
  appends : (s : ConversationState) (k : Text) (m : Message) → Change s (append_message k m s)
  clears : (s : ConversationState) (k : Text) → Change s (clear_messages k s)

messages-with :
    (k c : Text) (messages : List Message) (entries : List (Text × List Message))
    → (P : List Message → Type 0) → P messages
    → P (messages_of k entries)
    → P (messages_of k (with_messages c messages entries))
messages-with k c messages [] P new old = elim (Bool-cases (text_eq c k)) [
  | inl e ↦ rw e new
  | inr e ↦ rw e old
]
messages-with k c messages ((key, v) ∷ entries) P new old = elim (Bool-cases (text_eq key c)) [
  | inl e ↦
      rw e (elim (Bool-cases (text_eq key k)) [ inl f ↦ rw f new | inr f ↦ rw f (rw f at old) ])
  | inr e ↦ rw e (elim (Bool-cases (text_eq key k)) [
    | inl f ↦ rw f (rw f at old)
    | inr f ↦ rw f (messages-with k c messages entries P new (rw f at old))
  ])
]

append-IsUnique :
    (m : Message) (xs : List Message)
    → has_id m.id xs ≡ false
    → IsUnique xs
    → IsUnique (xs ++ m ∷ [])
append-IsUnique m [] h u = (refl, tt)
append-IsUnique m (x ∷ xs) h u = (
  has_id-append x.id m xs ∙ ground (arith, text_eq-sym x.id m.id, u.0, h),
  append-IsUnique m xs (ground arith) u.1,
)
  where
    has_id-append :
        (id : Text) (m : Message) (xs : List Message)
        → has_id id (xs ++ m ∷ []) ≡ (text_eq m.id id || has_id id xs)
    has_id-append id m [] = refl
    has_id-append id m (x ∷ xs) = ground (arith, has_id-append id m xs)

-- If each conversation of the store holds each id once, it does so after any of the four operations.
pub Change-IsUnique :
    (s t : ConversationState)
    → Change s t
    → ((k : Text) → IsUnique (messages_of k s.messages_by_conversation))
    → (k : Text) → IsUnique (messages_of k t.messages_by_conversation)
unfolding set_selected_conversation merge_messages append_message clear_messages
Change-IsUnique _ _ (selects s c) u k = u k
Change-IsUnique _ _ (merges s c messages) u k =
    messages-with k c (merge_unique_messages (messages_of c s.messages_by_conversation) messages)
      s.messages_by_conversation IsUnique
      (merge_lem (messages_of c s.messages_by_conversation) messages).0 (u k)
Change-IsUnique _ _ (appends s c m) u k =
    elim (Bool-cases (has_id m.id (messages_of c s.messages_by_conversation))) [
      | inl e ↦ rw e (u k)
      | inr e ↦ rw e (
          messages-with k c (messages_of c s.messages_by_conversation ++ m ∷ [])
            s.messages_by_conversation IsUnique
            (append-IsUnique m (messages_of c s.messages_by_conversation) e (u c)) (u k))
    ]
Change-IsUnique _ _ (clears s c) u k =
    messages-with k c [] s.messages_by_conversation IsUnique tt (u k)
