-- ===== src/MessageService/Delivery.antt =====
-- What a `sendMessage` that returns has stored.
use mern_chat_app.Common.{
  ℕ, ◌≡◌, Text, arith, some, ◌++◌, ◌∷◌, [], Option-cases, inl, inr, refl, ◌+◌, ap, ◌∙◌, none,
  Option, Bool-cases, subst, text_eq, sym,
}
use mern_chat_app.Database.{
  World, durable, Runtime, Conversation, MessageRow, ◌>>◌, Db, random_uuid, pure, connect,
  transaction, User,
}
use mern_chat_app.Database.{◌>>=◌}
use mern_chat_app.Outbox.{OutboxEvent, pending, insert_outbox_event, inserted}
use mern_chat_app.Database.Transactions.{bind-eq-ok, transaction_commits, begun}
use mern_chat_app.MessageService.{
  SendMessageInput, insert_event, SendMessageResult, send_body, outbox_insert, committed_event,
  send_result, send_in, send_to, received, send_message, find_or_create,
}
use mern_chat_app.Messages.{create_message_with_client, map_message, new_message}
use mern_chat_app.Errors.{ok}
use mern_chat_app.Events.{MessageCreatedEvent, to_js}
use mern_chat_app.Js.Trim.{trim}
use mern_chat_app.MessageService.Sending.{find_or_create-IsSafe, find_user-IsSafe, IsKept}
use mern_chat_app.Users.{find_user_by_id}

-- The message `m` and the event `e` that a result `r` of sending in `c` stands for.
pub record IsStored (rt : Runtime) (input : SendMessageInput) (r : SendMessageResult) (d : Db)
    (after : Db) : Type 0 where
  pub c : Conversation
  pub m : MessageRow
  pub e : OutboxEvent
  pub appended_message : after.messages ≡ d.messages ++ m ∷ []
  pub appended_event : after.outbox.rows ≡ d.outbox.rows ++ e ∷ []
  pub content : m.content ≡ trim input.message
  pub sender : rt.read_uuid input.sender_id ≡ some m.sender_id
  pub conversation : m.conversation_id ≡ c.id
  pub waiting : e.status ≡ pending
  pub ordered : e.aggregate_id ≡ c.id
  pub payload : e.payload ≡ to_js (committed_event rt input c (map_message rt m) e.id)
  pub returned : r ≡ send_result rt input c (map_message rt m)

settled_lem :
    (d : Db) (w : World)
    → w.saved ≡ none
    → IsKept d w
    → (w.db.messages ≡ d.messages) × (w.db.outbox ≡ d.outbox)
settled_lem d w h k = ground arith

module _ (rt : Runtime) where
  create_message_lem :
      (i j : ℕ) (s content : Text) (w : World) (m' : MessageRow)
      → (create_message_with_client rt i j s content w).0 ≡ ok m'
      → (m : MessageRow) × ((create_message_with_client rt i j s content w).1.db.messages
          ≡ w.db.messages ++ m ∷ [])
        × ((create_message_with_client rt i j s content w).1.db.outbox ≡ w.db.outbox)
        × (m' ≡ map_message rt m)
        × (m.conversation_id ≡ j)
        × (m.content ≡ content)
        × (rt.read_uuid s ≡ some m.sender_id)
  unfolding create_message_with_client
  create_message_lem i j s content w m' h = elim (Option-cases (rt.read_uuid s)) [
    | inl e ↦ absurd (ground arith)
    | inr (u, e) ↦
        (new_message rt i j u content, ground arith, ground arith, ground arith, refl, refl, e)
  ]

  insert_event_lem :
      (ev : MessageCreatedEvent) (key : Text) (w : World)
      → (insert_event rt ev key w).0 ≡ ok tt
      → (i a : ℕ) × (rt.read_uuid ev.event_id ≡ some i)
        × (rt.read_uuid key ≡ some a)
        × ((insert_event rt ev key w).1.db.messages ≡ w.db.messages)
        × ((insert_event rt ev key w).1.db.outbox.rows
            ≡ w.db.outbox.rows
              ++ inserted rt.now w.db.outbox.next_sequence (outbox_insert ev key i a) ∷ [])
  unfolding insert_event insert_outbox_event
  insert_event_lem ev key w h = elim (Option-cases (rt.read_uuid ev.event_id)) [
    | inl e ↦ absurd (ground arith)
    | inr (i, e) ↦ elim (Option-cases (rt.read_uuid key)) [
      | inl e' ↦ absurd (ground arith)
      | inr (a, e') ↦ (i, a, e, e', ground arith, ground arith)
    ]
  ]

module _ (rt : Runtime) (reads : (n : ℕ) → rt.read_uuid (rt.print_uuid n) ≡ some n) where
  same_id : (n k : ℕ) → rt.read_uuid (rt.print_uuid n) ≡ some k → k ≡ n
  same_id n k h = ground (arith, reads n)

  assemble :
      (input : SendMessageInput) (c : Conversation) (r : SendMessageResult) (d after : Db)
      → (m m' : MessageRow) (k a n sequence : ℕ) → after.messages ≡ d.messages ++ m ∷ []
      → after.outbox.rows
        ≡ d.outbox.rows
          ++ inserted rt.now sequence
              (outbox_insert (committed_event rt input c m' n) (rt.print_uuid c.id) k a)
            ∷ []
      → m' ≡ map_message rt m
      → m.conversation_id ≡ c.id
      → m.content ≡ trim input.message
      → rt.read_uuid input.sender_id ≡ some m.sender_id
      → rt.read_uuid (rt.print_uuid n) ≡ some k
      → rt.read_uuid (rt.print_uuid c.id) ≡ some a
      → ok (send_result rt input c m') ≡ ok r
      → IsStored rt input r d after
  unfolding committed_event outbox_insert
  assemble input c r d after m m' k a n sequence am ao em ej ec es ek ea er = record {
    c = c;
    m = m;
    e =
        inserted rt.now sequence
          (outbox_insert (committed_event rt input c m' n) (rt.print_uuid c.id) k a);
    appended_message = am;
    appended_event = ao;
    content = ec;
    sender = es;
    conversation = ej;
    waiting = refl;
    ordered = same_id c.id a ea;
    payload = rw (em, same_id n k ek) refl;
    returned = ground arith;
  }

  send_body_lem :
      (input : SendMessageInput) (c : Conversation) (i : ℕ) (w : World) (r : SendMessageResult)
      → (send_body rt input c i w).0 ≡ ok r
      → IsStored rt input r w.db (send_body rt input c i w).1.db
  unfolding send_body committed_event
  send_body_lem input c i w r h =
      let key = rt.print_uuid c.id in
      let create = create_message_with_client rt i c.id input.sender_id (trim input.message) in
      let (m', h1, h2, same1) =
        bind-eq-ok create
          (λ m. do
            event_id ← random_uuid rt
            insert_event rt (committed_event rt input c m event_id) key
            pure (send_result rt input c m))
          w r h in
      let w1 = (create w).1 in
      let n = rt.random_uuid w1.drawn in
      let w2 = record w1 { drawn = w1.drawn + 1 } in
      let event = committed_event rt input c m' n in
      let (u, h3, h4, same2) =
        bind-eq-ok (insert_event rt event key) (λ _. pure (send_result rt input c m')) w2 r h2 in
      let (m, am, ao, em, ej, ec, es) =
        create_message_lem rt i c.id input.sender_id (trim input.message) w m' h1 in
      let (k, a, ek, ea, bm, bo) = insert_event_lem rt event key w2 h3 in
      assemble input c r w.db (send_body rt input c i w).1.db m m' k a n w2.db.outbox.next_sequence
        (ap (λ v. v.1.db.messages) (same1 ∙ same2) ∙ bm ∙ am)
        (ap (λ v. v.1.db.outbox.rows) (same1 ∙ same2)
          ∙ bo
          ∙ ap
              (λ t.
                t.rows
                ++ inserted rt.now w2.db.outbox.next_sequence (outbox_insert event key k a) ∷ [])
              ao)
        em ej ec es ek ea (ground arith)

  IsStored-from :
      (input : SendMessageInput) (r : SendMessageResult) (d d' after : Db)
      → d.messages ≡ d'.messages
      → d.outbox ≡ d'.outbox
      → IsStored rt input r d after
      → IsStored rt input r d' after
  IsStored-from input r d d' after hm ho s = record {
    c = s.c;
    m = s.m;
    e = s.e;
    content = s.content;
    sender = s.sender;
    conversation = s.conversation;
    waiting = s.waiting;
    ordered = s.ordered;
    payload = s.payload;
    returned = s.returned;
    appended_message = s.appended_message ∙ ap (λ t. t ++ s.m ∷ []) hm;
    appended_event = s.appended_event ∙ ap (λ t. t.rows ++ s.e ∷ []) ho;
  }

  send_in_lem :
      (input : SendMessageInput) (c : Conversation) (w : World) (r : SendMessageResult)
      → w.saved ≡ none
      → (send_in rt input c w).0 ≡ ok r
      → IsStored rt input r w.db (durable (send_in rt input c w).1)
  unfolding send_in connect
  send_in_lem input c w r closed h =
      let i = rt.random_uuid w.drawn in
      let body = send_body rt input c i in
      let w1 = record w { drawn = w.drawn + 1 } in
      let (u, h1, h2, same) = bind-eq-ok connect (λ _. transaction body) w1 r h in
      let (hb, lasts, over) = transaction_commits body (connect w1).1 r h2 in
      subst (IsStored rt input r w.db) (sym (ap (λ v. durable v.1) same ∙ lasts))
        (send_body_lem input c i (begun (connect w1).1) r hb)

  send_to_lem :
      (input : SendMessageInput) (w : World) (r : SendMessageResult)
      → w.saved ≡ none
      → (send_to rt input w).0 ≡ ok r
      → IsStored rt input r w.db (durable (send_to rt input w).1)
  unfolding send_to
  send_to_lem input w r closed h =
      let found = find_or_create rt input.sender_id input.receiver_id in
      let (c, h1, h2, same) = bind-eq-ok found (send_in rt input) w r h in
      let (kept, over) = find_or_create-IsSafe rt input.sender_id input.receiver_id w closed in
      let w1 = (found w).1 in
      let now_closed = over c h1 in
      let kept' = settled_lem w.db w1 now_closed kept in
      subst (IsStored rt input r w.db) (sym (ap (λ v. durable v.1) same)) (
        IsStored-from input r w1.db w.db (durable (send_in rt input c w1).1) kept'.0 kept'.1
          (send_in_lem input c w1 r now_closed h2))

  received_lem :
      (input : SendMessageInput) (u : Option User) (w : World) (r : SendMessageResult)
      → w.saved ≡ none
      → (received rt input u w).0 ≡ ok r
      → IsStored rt input r w.db (durable (received rt input u w).1)
  unfolding received
  received_lem input none w r closed h = absurd (ground arith)
  received_lem input (some u) w r closed h = send_to_lem input w r closed h

  -- Outside a transaction, if the text of a UUID is read back as that UUID: a `sendMessage` that returns
  -- has appended its message, trimmed and with its sender, to the messages that last, and one pending
  -- event for it to the outbox, in the order of its conversation, and returns that message.
  pub send_stores :
      (input : SendMessageInput) (w : World) (r : SendMessageResult)
      → w.saved ≡ none
      → (send_message rt input w).0 ≡ ok r
      → IsStored rt input r w.db (durable (send_message rt input w).1)
  unfolding send_message received
  send_stores input w r closed h = elim (Bool-cases (text_eq input.sender_id input.receiver_id)) [
    | inl same ↦ absurd (ground arith)
    | inr other ↦
        let find = find_user_by_id rt input.receiver_id in
        let (u, h1, h2, same) = bind-eq-ok find (received rt input) w r (rw other at h) in
        let (kept, over) = find_user-IsSafe rt input.receiver_id w closed in
        let now_closed = over u h1 in
        let kept' = settled_lem w.db (find w).1 now_closed kept in
        rw other (
          subst (IsStored rt input r w.db) (sym (ap (λ v. durable v.1) same)) (
            IsStored-from input r (find w).1.db w.db (durable (received rt input u (find w).1).1)
              kept'.0 kept'.1 (received_lem input u (find w).1 r now_closed h2)))
  ]
