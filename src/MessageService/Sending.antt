-- ===== src/MessageService/Sending.antt =====
-- What `sendMessage` leaves in the database.
use mern_chat_app.Common.{
  ◌≡◌, Text, arith, none, ◌⊎◌, inl, some, subst, sym, inr, ap, refl, ◌∙◌, Bool-cases, Option,
  text_eq,
}
use mern_chat_app.Database.{
  World, durable, Exec, Runtime, Conversation, Db, connect, transaction, ◌>>=◌, random_uuid, pure,
  continue, User,
}
use mern_chat_app.Database.{◌>>◌}
use mern_chat_app.Database.Transactions.{transaction_atomic, transaction_commits, begun}
use mern_chat_app.Conversations.{
  create_body, create_direct_conversation, canonicalize_member_pair, find_direct_conversation,
}
use mern_chat_app.MessageService.{
  send_body, send_message, SendMessageInput, find_or_create, send_in, send_to, received,
}
use mern_chat_app.Errors.{Result-cases, Thrown, err, ok, Result}
use mern_chat_app.Users.{find_user_by_id}
use mern_chat_app.MessageService.Quiet.{IsQuiet, create_body-IsQuiet, send_body-IsInside}

-- The two tables, as they last.
abbrev pub IsKept : Db → World → Type 0
IsKept d w = ((durable w).messages ≡ d.messages) × ((durable w).outbox ≡ d.outbox)

-- An action outside a transaction that leaves the two tables as they were.
abbrev pub IsSafe : {A : Type 0} → Exec A → Type 0
IsSafe {A} m =
    (w : World)
    → w.saved ≡ none
    → IsKept w.db (m w).1 × ((a : A) → (m w).0 ≡ ok a → (m w).1.saved ≡ none)

-- An action that leaves the two tables as they were when it throws.
abbrev IsAtomic : {A : Type 0} → Exec A → Type 0
IsAtomic m = (w : World) (e : Thrown) → w.saved ≡ none → (m w).0 ≡ err e → IsKept w.db (m w).1

IsKept-trans : (d : Db) (v w : World) → v.saved ≡ none → IsKept d v → IsKept v.db w → IsKept d w
IsKept-trans d v w h k l = ground arith

module _ {A B : Type 0} (m : Exec A) (f : A → Exec B) where
  bind-cases :
      (w : World)
      → ((a : A) × ((m w).0 ≡ ok a) × ((m >>= f) w ≡ f a (m w).1))
        ⊎ ((e : Thrown) × ((m >>= f) w ≡ (err e, (m w).1)))
  bind-cases w = continued (m w).0
    where
      continued :
          (r : Result A)
          → ((a : A) × (r ≡ ok a) × (continue r f (m w).1 ≡ f a (m w).1))
            ⊎ ((e : Thrown) × (continue r f (m w).1 ≡ (err e, (m w).1)))
      continued (ok a) = inl (a, refl, refl)
      continued (err e) = inr (e, refl)

  bind-IsSafe : IsSafe m → ((a : A) → IsSafe (f a)) → IsSafe (m >>= f)
  bind-IsSafe safe next w h = elim (bind-cases w) [
    | inl (a, e, g) ↦
        let (kept, over) = next a (m w).1 ((safe w h).1 a e) in
        subst (λ r. IsKept w.db r.1 × ((b : B) → r.0 ≡ ok b → r.1.saved ≡ none)) (sym g)
          (IsKept-trans w.db (m w).1 (f a (m w).1).1 ((safe w h).1 a e) (safe w h).0 kept, over)
    | inr (e, g) ↦
        subst (λ r. IsKept w.db r.1 × ((b : B) → r.0 ≡ ok b → r.1.saved ≡ none)) (sym g)
          ((safe w h).0, λ b k. absurd (ground arith))
  ]

  bind-IsAtomic : IsSafe m → ((a : A) → IsAtomic (f a)) → IsAtomic (m >>= f)
  bind-IsAtomic safe next w e h k = elim (bind-cases w) [
    | inl (a, e', g) ↦
        subst (λ r. IsKept w.db r.1) (sym g)
          (IsKept-trans w.db (m w).1 (f a (m w).1).1 ((safe w h).1 a e') (safe w h).0
            (next a (m w).1 e ((safe w h).1 a e') (ap (λ r. r.0) (sym g) ∙ k)))
    | inr (e', g) ↦ subst (λ r. IsKept w.db r.1) (sym g) (safe w h).0
  ]

transaction-IsSafe : {A : Type 0} (body : Exec A) → IsQuiet body → IsSafe (transaction body)
transaction-IsSafe {A} body quiet w h =
    (kept (Result-cases (transaction body w).0), λ a k. (transaction_commits body w a k).2)
  where
    kept :
        ((a : A) × ((transaction body w).0 ≡ ok a))
          ⊎ ((e : Thrown) × ((transaction body w).0 ≡ err e))
        → IsKept w.db (transaction body w).1
    kept (inl (a, k)) =
        let (done, lasts, over) = transaction_commits body w a k in
        (
          ap (λ d. d.messages) lasts ∙ (quiet (begun w)).0,
          ap (λ d. d.outbox) lasts ∙ (quiet (begun w)).1,
        )
    kept (inr (e, k)) =
        let same = transaction_atomic body w e (λ v. (quiet v).2) h k in
        (ap (λ d. d.messages) same, ap (λ d. d.outbox) same)

safe-IsAtomic : {A : Type 0} (m : Exec A) → IsSafe m → IsAtomic m
safe-IsAtomic m safe w e h k = (safe w h).0

pub connect-IsSafe : IsSafe connect
unfolding connect
connect-IsSafe w h = ground arith

pub random-IsSafe : (rt : Runtime) → IsSafe (random_uuid rt)
unfolding random_uuid
random-IsSafe rt w h = ground arith

pub find_user-IsSafe : (rt : Runtime) (a : Text) → IsSafe (find_user_by_id rt a)
unfolding find_user_by_id
find_user-IsSafe rt a w h = ground arith

pub find_direct-IsSafe : (rt : Runtime) (a b : Text) → IsSafe (find_direct_conversation rt a b)
unfolding find_direct_conversation
find_direct-IsSafe rt a b w h = ground arith

create-IsSafe : (rt : Runtime) (a b : Text) → IsSafe (create_direct_conversation rt a b)
unfolding create_direct_conversation
create-IsSafe rt a b =
    let body = create_body rt (canonicalize_member_pair a b) in
    bind-IsSafe connect (λ _. transaction body) connect-IsSafe
      (λ _. transaction-IsSafe body (create_body-IsQuiet rt (canonicalize_member_pair a b)))

pub find_or_create-IsSafe : (rt : Runtime) (a b : Text) → IsSafe (find_or_create rt a b)
unfolding find_or_create
find_or_create-IsSafe rt a b =
    bind-IsSafe (find_direct_conversation rt a b)
      (λ found. elim found [ some c ↦ pure c | none ↦ create_direct_conversation rt a b ])
      (find_direct-IsSafe rt a b)
      (λ found.
        elim found
          as (λ f. IsSafe (elim f [ some c ↦ pure c | none ↦ create_direct_conversation rt a b ])) [
            | some c ↦ λ w h. (rw h (refl, refl), λ d k. h)
            | none ↦ create-IsSafe rt a b
          ])

send_in-IsAtomic :
    (rt : Runtime) (input : SendMessageInput) (c : Conversation) → IsAtomic (send_in rt input c)
unfolding send_in
send_in-IsAtomic rt input c =
    bind-IsAtomic (random_uuid rt) (λ i. do connect; transaction (send_body rt input c i))
      (random-IsSafe rt)
      (λ i.
        bind-IsAtomic connect (λ _. transaction (send_body rt input c i)) connect-IsSafe
          (λ _ w e h k.
            let same =
              transaction_atomic (send_body rt input c i) w e (send_body-IsInside rt input c i) h
                k in
            (ap (λ d. d.messages) same, ap (λ d. d.outbox) same)))

send_to-IsAtomic : (rt : Runtime) (input : SendMessageInput) → IsAtomic (send_to rt input)
unfolding send_to
send_to-IsAtomic rt input =
    bind-IsAtomic (find_or_create rt input.sender_id input.receiver_id) (send_in rt input)
      (find_or_create-IsSafe rt input.sender_id input.receiver_id) (send_in-IsAtomic rt input)

received-IsAtomic :
    (rt : Runtime) (input : SendMessageInput) (u : Option User) → IsAtomic (received rt input u)
unfolding received
received-IsAtomic rt input none w e h k = rw h (refl, refl)
received-IsAtomic rt input (some u) w e h k = send_to-IsAtomic rt input w e h k

-- Outside a transaction, whatever queries fail: a `sendMessage` that throws has stored neither a
-- message nor an event.
pub send_atomic :
    (rt : Runtime) (input : SendMessageInput) (w : World) (e : Thrown)
    → w.saved ≡ none
    → (send_message rt input w).0 ≡ err e
    → ((durable (send_message rt input w).1).messages ≡ w.db.messages)
      × ((durable (send_message rt input w).1).outbox ≡ w.db.outbox)
unfolding send_message
send_atomic rt input w e h f = elim (Bool-cases (text_eq input.sender_id input.receiver_id)) [
  | inl same ↦ rw same (rw h (refl, refl))
  | inr other ↦ rw other (
      bind-IsAtomic (find_user_by_id rt input.receiver_id) (received rt input)
        (find_user-IsSafe rt input.receiver_id) (received-IsAtomic rt input) w e h (rw other at f))
]
