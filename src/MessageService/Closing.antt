-- ===== src/MessageService/Closing.antt =====
-- How `sendMessage` gives its connection back.
use mern_chat_app.Common.{
  ◌≡◌, Text, arith, none, some, ◌⊎◌, inl, inr, ap, Option, Bool-cases, text_eq, refl,
}
use mern_chat_app.Conversations.{
  create_body, create_direct_conversation, canonicalize_member_pair, find_direct_conversation,
}
use mern_chat_app.Database.{
  World, Db, Exec, Runtime, connection_lost, connect, random_uuid, transaction, pure, Conversation,
  User,
}
use mern_chat_app.Database.Transactions.{IsInside, transaction_closes}
use mern_chat_app.Errors.{Result-cases, Thrown, err, ok}
use mern_chat_app.Database.{◌>>=◌, ◌>>◌}
use mern_chat_app.MessageService.{
  send_body, send_message, SendMessageInput, find_or_create, send_in, send_to, received,
  SendMessageResult,
}
use mern_chat_app.MessageService.Sending.{
  IsSafe, connect-IsSafe, find_direct-IsSafe, find_or_create-IsSafe, find_user-IsSafe,
  random-IsSafe,
}
use mern_chat_app.Users.{find_user_by_id}
use mern_chat_app.MessageService.Quiet.{create_body-IsQuiet, send_body-IsInside}

-- The two tables, as the connection sees them.
abbrev IsSame : Db → Db → Type 0
IsSame d d' = (d'.messages ≡ d.messages) × (d'.outbox ≡ d.outbox)

-- An action outside a transaction that leaves none open, unless it ends in a lost connection, and if it
-- throws, the two tables as they were.
abbrev IsTidy : {A : Type 0} → Exec A → Type 0
IsTidy {A} m =
    (w : World)
    → w.saved ≡ none
    → ¬ ((m w).0 ≡ err connection_lost)
    → ((m w).1.saved ≡ none) × (((a : A) × ((m w).0 ≡ ok a)) ⊎ IsSame w.db (m w).1.db)

module _ {A B : Type 0} (m : Exec A) (f : A → Exec B) where
  bind-IsTidy : IsSafe m → IsTidy m → ((a : A) → IsTidy (f a)) → IsTidy (m >>= f)
  bind-IsTidy safe tidy next w h lost = continued (Result-cases (m w).0)
    where
      continued :
          ((a : A) × ((m w).0 ≡ ok a)) ⊎ ((e : Thrown) × ((m w).0 ≡ err e))
          → (((m >>= f) w).1.saved ≡ none)
            × (((b : B) × (((m >>= f) w).0 ≡ ok b)) ⊎ IsSame w.db ((m >>= f) w).1.db)
      continued (inl (a, e)) =
          let over = (safe w h).1 a e in
          let kept = (safe w h).0 in
          rw e (
            let (closed, rest) = next a (m w).1 over (λ k. lost (rw e k)) in
            (closed, elim rest [ inl r ↦ inl r | inr (x, y) ↦ inr (ground arith, ground arith) ]))
      continued (inr (e, k)) =
          let (closed, rest) = tidy w h (λ l. lost (rw k (ground arith))) in
          rw k (closed, elim rest [ inl (a, l) ↦ absurd (ground arith) | inr same ↦ inr same ])

connect-IsTidy : IsTidy connect
unfolding connect
connect-IsTidy w h lost = ground arith

random-IsTidy : (rt : Runtime) → IsTidy (random_uuid rt)
unfolding random_uuid
random-IsTidy rt w h lost = ground arith

find_user-IsTidy : (rt : Runtime) (a : Text) → IsTidy (find_user_by_id rt a)
unfolding find_user_by_id
find_user-IsTidy rt a w h lost = ground arith

find_direct-IsTidy : (rt : Runtime) (a b : Text) → IsTidy (find_direct_conversation rt a b)
unfolding find_direct_conversation
find_direct-IsTidy rt a b w h lost = ground arith

transaction-IsTidy : {A : Type 0} (body : Exec A) → IsInside body → IsTidy (transaction body)
transaction-IsTidy body inside w h lost =
    let (closed, rest) = transaction_closes body w inside lost in
    (
      closed,
      elim rest [
        | inl r ↦ inl r
        | inr same ↦ inr (ap (λ d. d.messages) same, ap (λ d. d.outbox) same)
      ],
    )

create-IsTidy : (rt : Runtime) (a b : Text) → IsTidy (create_direct_conversation rt a b)
unfolding create_direct_conversation
create-IsTidy rt a b =
    let pair = canonicalize_member_pair a b in
    bind-IsTidy connect (λ _. transaction (create_body rt pair)) connect-IsSafe connect-IsTidy
      (λ _. transaction-IsTidy (create_body rt pair) (λ w. (create_body-IsQuiet rt pair w).2))

find_or_create-IsTidy : (rt : Runtime) (a b : Text) → IsTidy (find_or_create rt a b)
unfolding find_or_create
find_or_create-IsTidy rt a b =
    bind-IsTidy (find_direct_conversation rt a b)
      (λ found. elim found [ some c ↦ pure c | none ↦ create_direct_conversation rt a b ])
      (find_direct-IsSafe rt a b) (find_direct-IsTidy rt a b)
      (λ found.
        elim found
          as (λ f. IsTidy (elim f [ some c ↦ pure c | none ↦ create_direct_conversation rt a b ])) [
            | some c ↦ λ w h lost. (h, inl (c, refl))
            | none ↦ create-IsTidy rt a b
          ])

send_in-IsTidy :
    (rt : Runtime) (input : SendMessageInput) (c : Conversation) → IsTidy (send_in rt input c)
unfolding send_in
send_in-IsTidy rt input c =
    bind-IsTidy (random_uuid rt) (λ i. do connect; transaction (send_body rt input c i))
      (random-IsSafe rt) (random-IsTidy rt)
      (λ i.
        bind-IsTidy connect (λ _. transaction (send_body rt input c i)) connect-IsSafe
          connect-IsTidy
          (λ _. transaction-IsTidy (send_body rt input c i) (send_body-IsInside rt input c i)))

send_to-IsTidy : (rt : Runtime) (input : SendMessageInput) → IsTidy (send_to rt input)
unfolding send_to
send_to-IsTidy rt input =
    bind-IsTidy (find_or_create rt input.sender_id input.receiver_id) (send_in rt input)
      (find_or_create-IsSafe rt input.sender_id input.receiver_id)
      (find_or_create-IsTidy rt input.sender_id input.receiver_id) (send_in-IsTidy rt input)

received-IsTidy :
    (rt : Runtime) (input : SendMessageInput) (u : Option User) → IsTidy (received rt input u)
unfolding received
received-IsTidy rt input none w h lost = (h, inr (refl, refl))
received-IsTidy rt input (some u) w h lost = send_to-IsTidy rt input w h lost

-- Outside a transaction: a `sendMessage` that does not throw a lost connection gives its connection back
-- with no transaction open. It returned, or the connection sees the messages and the outbox as they were:
-- an error between BEGIN and COMMIT has been rolled back.
pub send_closes :
    (rt : Runtime) (input : SendMessageInput) (w : World)
    → w.saved ≡ none
    → ¬ ((send_message rt input w).0 ≡ err connection_lost)
    → ((send_message rt input w).1.saved ≡ none)
      × (((r : SendMessageResult) × ((send_message rt input w).0 ≡ ok r))
          ⊎ (((send_message rt input w).1.db.messages ≡ w.db.messages)
              × ((send_message rt input w).1.db.outbox ≡ w.db.outbox)))
unfolding send_message
send_closes rt input w h lost = elim (Bool-cases (text_eq input.sender_id input.receiver_id)) [
  | inl same ↦ rw same (h, inr (refl, refl))
  | inr other ↦ rw other (
      bind-IsTidy (find_user_by_id rt input.receiver_id) (received rt input)
        (find_user-IsSafe rt input.receiver_id) (find_user-IsTidy rt input.receiver_id)
        (received-IsTidy rt input) w h (λ k. lost (rw other k)))
]
