-- ===== src/MessageService/Quiet.antt =====
-- The statements of `sendMessage` that leave the messages and the outbox alone.
use mern_chat_app.Common.{ℕ, ◌≡◌, Text, arith, none, some, refl, ◌∙◌, Option}
use mern_chat_app.Database.{
  World, Exec, Runtime, Conversation, ◌>>=◌, random_uuid, pure, continue, query,
}
use mern_chat_app.Database.{◌>>◌}
use mern_chat_app.Database.Transactions.{IsInside}
use mern_chat_app.Conversations.{
  create_body, resolve_conversation, ensure_membership, insert_or_resolve, cast_pair,
  insert_conversation,
}
use mern_chat_app.MessageService.{send_body, SendMessageInput}
use mern_chat_app.Errors.{err, ok, Result}

-- An action that touches neither the messages nor the outbox.
abbrev pub IsQuiet : {A : Type 0} → Exec A → Type 0
IsQuiet body =
    (w : World)
    → ((body w).1.db.messages ≡ w.db.messages)
      × ((body w).1.db.outbox ≡ w.db.outbox)
      × ((body w).1.saved ≡ w.saved)

bind-IsQuiet :
    {A B : Type 0} (m : Exec A) (f : A → Exec B)
    → IsQuiet m
    → ((a : A) → IsQuiet (f a))
    → IsQuiet (m >>= f)
bind-IsQuiet {A} {B} m f h k w =
    let (m0, o0, s0) = h w in let (m1, o1, s1) = continued (m w).0 in (m1 ∙ m0, o1 ∙ o0, s1 ∙ s0)
  where
    continued :
        (r : Result A)
        → ((continue r f (m w).1).1.db.messages ≡ (m w).1.db.messages)
          × ((continue r f (m w).1).1.db.outbox ≡ (m w).1.db.outbox)
          × ((continue r f (m w).1).1.saved ≡ (m w).1.saved)
    continued (ok a) = k a (m w).1
    continued (err e) = (refl, refl, refl)

resolve-IsQuiet :
    (rt : Runtime) (pair : Text × Text) (o : Option Conversation)
    → IsQuiet (resolve_conversation rt pair o)
unfolding resolve_conversation
resolve-IsQuiet rt pair (some c) w = (refl, refl, refl)
resolve-IsQuiet rt (a, b) none w = (ground arith, ground arith, ground arith)

insert-IsQuiet :
    (rt : Runtime) (id : ℕ) (a b : Text)
    → IsQuiet (query (λ db. cast_pair rt (a, b) λ u v. insert_conversation rt id u v db))
unfolding query
insert-IsQuiet rt id a b w = (ground arith, ground arith, ground arith)

member-IsQuiet : (rt : Runtime) (c : ℕ) (t : Text) → IsQuiet (ensure_membership rt c t)
unfolding ensure_membership
member-IsQuiet rt c t w = (ground arith, ground arith, ground arith)

random-IsQuiet : (rt : Runtime) → IsQuiet (random_uuid rt)
unfolding random_uuid
random-IsQuiet rt w = (refl, refl, refl)

-- The statements of `create_body` behind the conversation, and behind the drawn id.
abbrev join_members : Runtime → Text → Text → Conversation → Exec Conversation
join_members rt a b c = ensure_membership rt c.id a >> (ensure_membership rt c.id b >> pure c)

abbrev create_with : Runtime → Text → Text → ℕ → Exec Conversation
create_with rt a b id = insert_or_resolve rt id (a, b) >>= join_members rt a b

insert_or_resolve-IsQuiet :
    (rt : Runtime) (id : ℕ) (a b : Text) → IsQuiet (insert_or_resolve rt id (a, b))
unfolding insert_or_resolve
insert_or_resolve-IsQuiet rt id a b =
    bind-IsQuiet (query (λ db. cast_pair rt (a, b) λ u v. insert_conversation rt id u v db))
      (resolve_conversation rt (a, b)) (insert-IsQuiet rt id a b) (resolve-IsQuiet rt (a, b))

join-IsQuiet : (rt : Runtime) (a b : Text) (c : Conversation) → IsQuiet (join_members rt a b c)
join-IsQuiet rt a b c =
    bind-IsQuiet (ensure_membership rt c.id a) (λ u. ensure_membership rt c.id b >> pure c)
      (member-IsQuiet rt c.id a)
      (λ u.
        bind-IsQuiet (ensure_membership rt c.id b) (λ v. pure c) (member-IsQuiet rt c.id b)
          (λ v w. (refl, refl, refl)))

pub create_body-IsQuiet : (rt : Runtime) (pair : Text × Text) → IsQuiet (create_body rt pair)
unfolding create_body
create_body-IsQuiet rt (a, b) =
    bind-IsQuiet (random_uuid rt) (create_with rt a b) (random-IsQuiet rt) (λ id.
      bind-IsQuiet (insert_or_resolve rt id (a, b)) (join_members rt a b)
        (insert_or_resolve-IsQuiet rt id a b) (join-IsQuiet rt a b))

pub send_body-IsInside :
    (rt : Runtime) (input : SendMessageInput) (c : Conversation) (i : ℕ)
    → IsInside (send_body rt input c i)
unfolding send_body
send_body-IsInside rt input c i w = ground arith
