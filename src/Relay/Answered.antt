-- ===== src/Relay/Answered.antt =====
-- A round of the relay in which every query and every message is accepted.
use mern_chat_app.Common.{
  ℕ, ◌≡◌, ◌<◌, refl, Text, List, [], ◌∷◌, Bool, true, false, In, arith, ◌&&◌, ◌==◌, map, length, ap,
  ◌∙◌, if◌then◌else◌, ◌++◌, text_eq, In-of_map, In-map, any_of_In, ==_self,
}
use mern_chat_app.Common.Sql.{select, update, order_by}
use mern_chat_app.Outbox.{
  OutboxEvent, is_unfinished, mark_outbox_events_published, claim_pending_outbox_events, claim_ids,
  claimed, is_any_of, is_processing,
}
use mern_chat_app.Outbox.Cases.{lease, claim_cases}
use mern_chat_app.Relay.{
  Turn, Settings, RelayWorld, returned, run_outbox_relay_once, relay_events, publish_outbox_events,
  send_topics, topics_of, mark_published, message,
}
use mern_chat_app.Relay.Once.{batch_of, claimed_world, marked}
use mern_chat_app.Relay.Sending.{publish-rows}
use mern_chat_app.Common.Sorting.{by_key, In-order_by, In-of_order_by, In-of_select, In-select}
use mern_chat_app.Relay.Unfinished.{unfinished, updates_lt, updates_source}

pub mark_any :
    (now : ℕ) (is : List ℕ) (rows : List OutboxEvent)
    → mark_outbox_events_published now is rows
      ≡ update (λ e. is_any_of is e && is_processing e.status) (marked now) rows
unfolding mark_outbox_events_published
mark_any now [] rows = unchanged rows
  where
    unchanged :
        (xs : List OutboxEvent) → xs ≡ update (λ e. false && is_processing e.status) (marked now) xs
    unchanged [] = refl
    unchanged (x ∷ xs) = ap (λ r. x ∷ r) (unchanged xs)
mark_any now (i ∷ is) rows = refl

-- A round that is answered throughout.
module _ (turn : Turn) (settings : Settings) (claims : turn.claim_answers ≡ true)
    (accepts : (t : Text) → turn.accepts t ≡ true) (marks : turn.mark_answers ≡ true) where
  pub send_topics_done :
      (events : List OutboxEvent) (ts : List Text) (w : RelayWorld)
      → (send_topics turn.accepts events ts w).0 ≡ true
  unfolding send_topics
  send_topics_done events [] w = refl
  send_topics_done events (t ∷ ts) w = ground (
    arith,
    accepts t,
    send_topics_done events ts
        (record w { sent = w.sent ++ map message (select (λ e. text_eq e.topic t) events) }),
  )

  pub publish_done :
      (events : List OutboxEvent) (w : RelayWorld)
      → (publish_outbox_events turn.accepts events w).0 ≡ true
  unfolding publish_outbox_events
  publish_done [] w = refl
  publish_done (e ∷ events) w = send_topics_done (e ∷ events) (topics_of (e ∷ events)) _

  pub mark_published-rows :
      (events : List OutboxEvent) (w : RelayWorld)
      → (mark_published turn events w).rows
        ≡ mark_outbox_events_published turn.marked_at (map (λ x. x.id) events) w.rows
  unfolding mark_published mark_outbox_events_published
  mark_published-rows [] w = refl
  mark_published-rows (e ∷ events) w = refl

  pub relay_done :
      (events : List OutboxEvent) (w : RelayWorld)
      → relay_events turn settings events w ≡ (
        returned (length events),
        mark_published turn events (publish_outbox_events turn.accepts events w).1,
      )
  unfolding relay_events
  relay_done [] w = ground (arith, publish_done [] w)
  relay_done (e ∷ events) w = rw (publish_done (e ∷ events) w, marks) refl

  pub round_lem :
      (w : RelayWorld)
      → ((run_outbox_relay_once turn settings w).0 ≡ returned (length (batch_of turn settings w)))
        × ((run_outbox_relay_once turn settings w).1.rows
            ≡ mark_outbox_events_published turn.marked_at
                (map (λ x. x.id) (batch_of turn settings w))
                (claimed_world turn settings w).rows)
  unfolding run_outbox_relay_once
  round_lem w =
      let events = batch_of turn settings w in
      let v = claimed_world turn settings w in
      rw (claims, if◌then◌else◌)
        (
          ap (λ r. r.0) (relay_done events v),
          ap (λ r. r.1.rows) (relay_done events v)
              ∙ mark_published-rows events (publish_outbox_events turn.accepts events v).1
              ∙ ap (mark_outbox_events_published turn.marked_at (map (λ x. x.id) events))
                  (publish-rows turn.accepts events v),
        )

  -- The claim as two updates, if it takes an event.
  pub claim_form :
      (w : RelayWorld) (c : OutboxEvent)
      → In c (batch_of turn settings w)
      → (is : List ℕ) × (claim_pending_outbox_events turn.snapshot settings.batch_size
            settings.lease_ms w.rows
          ≡ claim_ids turn.snapshot.now (lease settings.lease_ms) is w.rows)
  claim_form w c =
      claim_cases
        (λ r.
          In c r.1
          → (is : List ℕ) × (r ≡ claim_ids turn.snapshot.now (lease settings.lease_ms) is w.rows))
        turn.snapshot settings.batch_size settings.lease_ms w.rows (λ m. elim m [ ])
        (λ f e m. (_, refl))

abbrev pub picks : List ℕ → OutboxEvent → Bool
picks is x = is_any_of is x && is_unfinished x

abbrev pub marks_any : List OutboxEvent → OutboxEvent → Bool
marks_any events x = is_any_of (map (λ y. y.id) events) x && is_processing x.status

-- The publication of a claimed batch hits each row that the claim changed.
pub claim_hits :
    (now lease_ms : ℕ) (is : List ℕ) (rows : List OutboxEvent) (x : OutboxEvent)
    → In x rows
    → picks is x ≡ true
    → marks_any (claim_ids now lease_ms is rows).1 (claimed now lease_ms x) ≡ true
unfolding claim_ids
claim_hits now lease_ms is rows x m h =
    let events =
      order_by (by_key {A = OutboxEvent} (λ e. e.sequence_number))
        (map (claimed now lease_ms) (select (picks is) rows)) in
    let listed =
      In-order_by (by_key {A = OutboxEvent} (λ e. e.sequence_number)) (claimed now lease_ms x)
        (map (claimed now lease_ms) (select (picks is) rows))
        (In-map (claimed now lease_ms) x (select (picks is) rows)
          (In-select (picks is) x rows m h)) in
    rw
      (any_of_In (λ i. x.id == i) x.id (map (λ (y : OutboxEvent). y.id) events)
        (In-map (λ (y : OutboxEvent). y.id) (claimed now lease_ms x) events listed) (==_self x.id))
      refl

-- A claimed event comes from a row that the claim picked.
pub claim_origin :
    (now lease_ms : ℕ) (is : List ℕ) (rows : List OutboxEvent) (c : OutboxEvent)
    → In c (claim_ids now lease_ms is rows).1
    → (x : OutboxEvent) × In x rows × (picks is x ≡ true)
unfolding claim_ids
claim_origin now lease_ms is rows c m =
    let (x, k, e) = In-of_map (claimed now lease_ms) c (select (picks is) rows) (
      In-of_order_by (by_key {A = OutboxEvent} (λ z. z.sequence_number)) c
        (map (claimed now lease_ms) (select (picks is) rows)) m) in
    let (l, h) = In-of_select (picks is) x rows k in (x, l, h)

pub claim_ids-rows :
    (now lease_ms : ℕ) (is : List ℕ) (rows : List OutboxEvent)
    → (claim_ids now lease_ms is rows).0 ≡ update (picks is) (claimed now lease_ms) rows
unfolding claim_ids
claim_ids-rows now lease_ms is rows = refl

-- What a round that took an event does to the unfinished rows.
abbrev pub Drops : List OutboxEvent → List OutboxEvent → Type 0
Drops rows rows' =
    (unfinished rows' < unfinished rows)
    × ((y : OutboxEvent) → In y rows' → is_unfinished y ≡ true → In y rows)

pub claim-Drops :
    (now lease_ms at : ℕ) (is : List ℕ) (rows : List OutboxEvent) (c : OutboxEvent)
    → In c (claim_ids now lease_ms is rows).1
    → Drops rows (
        mark_outbox_events_published at
          (map (λ y. y.id) (claim_ids now lease_ms is rows).1)
          (claim_ids now lease_ms is rows).0)
claim-Drops now lease_ms at is rows c m =
    let (x, l, h) = claim_origin now lease_ms is rows c m in
    let events = (claim_ids now lease_ms is rows).1 in
    let hits = claim_hits now lease_ms is rows in
    rw
      (
        mark_any at (map (λ (y : OutboxEvent). y.id) events) (claim_ids now lease_ms is rows).0,
        claim_ids-rows now lease_ms is rows,
      )
      (
        updates_lt (picks is) (marks_any events) (claimed now lease_ms) (marked at) (λ z. refl) rows
            x hits l h (ground arith),
        λ y.
            updates_source (picks is) (marks_any events) (claimed now lease_ms) (marked at)
              (λ z. refl) rows y hits,
      )
