-- ===== src/Consumer/Idempotence.antt =====
-- What one delivery of an event, and one more of the same event, do to the database.
use mern_chat_app.Common.{
  ◌≡◌, Text, arith, any, true, false, none, some, ◌∷◌, Bool, List, ℕ, ◌++◌, [], Option-cases, inl,
  inr, Bool-cases, subst, text_eq_refl, sym, ap, ◌∙◌, refl,
}
use mern_chat_app.Consumer.{
  Outcome, processed, duplicate, mark_processed, notify, finish, insert_processed, is_notification,
  is_processed_by, process_message_created_event, process_on_client, process_body,
}
use mern_chat_app.Database.{
  Runtime, World, durable, ◌>>=◌, Exec, rethrow, Db, rollback, commit, connect, begin,
}
use mern_chat_app.Errors.{err, ok, Thrown}
use mern_chat_app.Events.{MessageCreatedEvent}
use mern_chat_app.Database.Transactions.{bind-eq-ok}

rethrown :
    {A : Type 0} (m : Exec A) (w : World) (a : A)
    → (rethrow (m w).0 (m w).1).0 ≡ ok a
    → ((m w).0 ≡ ok a) × (rethrow (m w).0 (m w).1 ≡ (ok a, (m w).1))
rethrown m w a h = ground arith

any-append_self :
    {A : Type 0} (p : A → Bool) (xs : List A) (a : A) → p a ≡ true → any p (xs ++ a ∷ []) ≡ true
any-append_self p [] a h = ground arith
any-append_self p (x ∷ xs) a h = ground (arith, any-append_self p xs a h)

module _ (rt : Runtime) (name : Text) (event : MessageCreatedEvent) where
  -- The event of an id is among the processed ones of the consumer.
  unfoldable pub IsHandled : ℕ → Db → Type 0
  IsHandled i db = any (is_processed_by name i) db.processed_events ≡ true

  mark_lem :
      (w : World) (fresh : Bool)
      → (mark_processed rt name event.event_id w).0 ≡ ok fresh
      → (i : ℕ) × (rt.read_uuid event.event_id ≡ some i)
        × (fresh ≡ (insert_processed name i w.db).0)
        × ((mark_processed rt name event.event_id w).1.db ≡ (insert_processed name i w.db).1)
        × ((mark_processed rt name event.event_id w).1.saved ≡ w.saved)
  unfolding mark_processed
  mark_lem w fresh h = elim (Option-cases (rt.read_uuid event.event_id)) [
    | inl e ↦ absurd (ground arith)
    | inr (i, e) ↦ (i, e, ground arith, ground arith, ground arith)
  ]

  notify_lem :
      (w : World)
      → (notify rt event w).0 ≡ ok tt
      → (r m : ℕ) × (rt.read_uuid event.event_data.recipient_id ≡ some r)
        × (rt.read_uuid event.event_data.message_id ≡ some m)
        × (any (is_notification r m) (notify rt event w).1.db.notifications ≡ true)
        × ((notify rt event w).1.db.processed_events ≡ w.db.processed_events)
  unfolding notify
  notify_lem w h = elim (Option-cases (rt.read_uuid event.event_data.recipient_id)) [
    | inl e ↦ absurd (ground arith)
    | inr (r, e) ↦ elim (Option-cases (rt.read_uuid event.event_data.message_id)) [
      | inl e' ↦ absurd (ground arith)
      | inr (m, e') ↦ (
        r,
        m,
        e,
        e',
        ground (
          arith,
          any-append_self (is_notification r m) w.db.notifications
              (record { recipient_id = r; message_id = m }),
        ),
        ground arith,
      )
    ]
  ]

  finish_duplicate :
      (w : World) (o : Outcome) (d : Db)
      → w.saved ≡ some d
      → (finish rt event false w).0 ≡ ok o
      → (o ≡ duplicate) × (durable (finish rt event false w).1 ≡ d)
  unfolding finish rollback
  finish_duplicate w o d s h = ground arith

  finish_processed :
      (w : World) (o : Outcome)
      → (finish rt event true w).0 ≡ ok o
      → (o ≡ processed)
        × ((notify rt event w).0 ≡ ok tt)
        × (durable (finish rt event true w).1 ≡ (notify rt event w).1.db)
  unfolding finish commit
  finish_processed w o h = ground arith

  marked_lem :
      (after d : Db) (i : ℕ)
      → true ≡ (insert_processed name i d).0
      → after ≡ (insert_processed name i d).1
      → any (is_processed_by name i) after.processed_events ≡ true
  marked_lem after d i hf hd = elim (Bool-cases (any (is_processed_by name i) d.processed_events)) [
    | inl e ↦ absurd (ground arith)
    | inr e ↦ rw hd (
        rw e (
          any-append_self (is_processed_by name i) d.processed_events
            (record { consumer_name = name; event_id = i }) (ground (arith, text_eq_refl name))))
  ]

  -- What a delivery with the outcome `o` makes of the database `d`.
  unfoldable pub IsDelivered : ℕ → Outcome → Db → Db → Type 0
  unfolding IsHandled
  IsDelivered i duplicate d after = IsHandled i d × (after ≡ d)
  IsDelivered i processed d after =
      (any (is_processed_by name i) d.processed_events ≡ false)
      × IsHandled i after
      × (r m : ℕ) × (rt.read_uuid event.event_data.recipient_id ≡ some r)
      × (rt.read_uuid event.event_data.message_id ≡ some m)
      × (any (is_notification r m) after.notifications ≡ true)

  finish_lem :
      (w : World) (d : Db) (fresh : Bool) (i : ℕ) (o : Outcome)
      → fresh ≡ (insert_processed name i d).0
      → w.db ≡ (insert_processed name i d).1
      → w.saved ≡ some d
      → (finish rt event fresh w).0 ≡ ok o
      → IsDelivered i o d (durable (finish rt event fresh w).1)
  unfolding IsDelivered IsHandled
  finish_lem w d false i o hf hd hs h =
      let (eo, same) = finish_duplicate w o d hs h in
      subst (λ o. IsDelivered i o d (durable (finish rt event false w).1)) (sym eo)
        (ground arith, same)
  finish_lem w d true i o hf hd hs h =
      let (eo, done, lasts) = finish_processed w o h in
      let (r, m, er, em, stored, same) = notify_lem w done in
      subst (λ o. IsDelivered i o d (durable (finish rt event true w).1)) (sym eo)
        (
          ground arith,
          ap (λ t. any (is_processed_by name i) t.processed_events) lasts
              ∙ ap (any (is_processed_by name i)) same
              ∙ marked_lem w.db d i hf hd,
          r,
          m,
          er,
          em,
          ap (λ t. any (is_notification r m) t.notifications) lasts ∙ stored,
        )

  -- Outside a transaction, a delivery that returns has found the event among the processed ones and
  -- changed nothing, or it has not, and the event is now among them and its recipient has the
  -- notification of its message.
  pub deliver_lem :
      (w : World) (o : Outcome)
      → w.saved ≡ none
      → (process_message_created_event rt name event w).0 ≡ ok o
      → (i : ℕ) × (rt.read_uuid event.event_id ≡ some i)
        × IsDelivered i o w.db (durable (process_message_created_event rt name event w).1)
  unfolding process_message_created_event process_on_client process_body connect begin
  deliver_lem w o closed h =
      let (u, h1, h2, same1) = bind-eq-ok connect (λ _. process_on_client rt name event) w o h in
      let w1 = (connect w).1 in
      let (h3, same2) = rethrown (process_body rt name event) w1 o h2 in
      let mark = mark_processed rt name event.event_id in
      let (u', h4, h5, same3) = bind-eq-ok begin (λ _. mark >>= finish rt event) w1 o h3 in
      let w2 = (begin w1).1 in
      let (fresh, h6, h7, same4) = bind-eq-ok mark (finish rt event) w2 o h5 in
      let (i, ei, ef, ed, es) = mark_lem w2 fresh h6 in
      let w3 = (mark w2).1 in
      (
        i,
        ei,
        subst (λ d. IsDelivered i o w.db d)
            (sym (
              ap (λ r. durable r.1) same1
              ∙ ap (λ r. durable r.1) same2
              ∙ ap (λ r. durable r.1) (same3 ∙ same4)))
            (finish_lem w3 w.db fresh i o (ground arith) (ground arith) (ground arith) h7),
      )

  -- Outside a transaction, a delivery that throws, at whatever query, leaves the lasting database as it
  -- was.
  pub deliver_atomic :
      (w : World) (e : Thrown)
      → w.saved ≡ none
      → (process_message_created_event rt name event w).0 ≡ err e
      → durable (process_message_created_event rt name event w).1 ≡ w.db
  unfolding process_message_created_event process_on_client process_body connect begin
      mark_processed finish notify commit rollback
  deliver_atomic w e closed h = ground arith

  handled : (i : ℕ) (o : Outcome) (d after : Db) → IsDelivered i o d after → IsHandled i after
  unfolding IsDelivered IsHandled
  handled i duplicate d after h = ground arith
  handled i processed d after h = h.1

  again :
      (i : ℕ) (o : Outcome) (d after : Db)
      → IsHandled i d
      → IsDelivered i o d after
      → (o ≡ duplicate) × (after ≡ d)
  unfolding IsDelivered IsHandled
  again i duplicate d after k h = (refl, h.1)
  again i processed d after k h = absurd (ground arith)

  -- Outside a transaction, after a delivery that returned, one more on the database it left that
  -- returns finds the event a duplicate and changes nothing.
  pub redeliver :
      (w v : World) (o o' : Outcome)
      → w.saved ≡ none
      → (process_message_created_event rt name event w).0 ≡ ok o
      → v.saved ≡ none
      → v.db ≡ durable (process_message_created_event rt name event w).1
      → (process_message_created_event rt name event v).0 ≡ ok o'
      → (o' ≡ duplicate) × (durable (process_message_created_event rt name event v).1 ≡ v.db)
  redeliver w v o o' closed h closed' same h' =
      let (i, ei, d) = deliver_lem w o closed h in
      let (j, ej, d') = deliver_lem v o' closed' h' in
      let k = handled i o w.db (durable (process_message_created_event rt name event w).1) d in
      again j o' v.db (durable (process_message_created_event rt name event v).1)
        (subst (λ x. IsHandled x v.db) (ground arith) (subst (IsHandled i) (sym same) k)) d'
