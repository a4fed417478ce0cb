-- ===== src/Relay/Once.antt =====
-- One round of the relay, from the claim to the recorded outcome.
use mern_chat_app.Common.{
  ℕ, ◌≡◌, List, some, Bool, ◌∷◌, In, none, ◌⊎◌, [], ◌&&◌, inl, refl, map, any_of_In, true, ◌==◌,
  Bool-cases, In-map, ==_self, arith, inr, if◌then◌else◌, ◌||◌, codes, ap,
}
use mern_chat_app.Outbox.{
  OutboxEvent, published, mark_outbox_events_published, is_any_of, processing, is_processing,
  claim_pending_outbox_events, claimed, is_unfinished,
}
use mern_chat_app.Relay.{
  RelayWorld, Turn, Settings, mark_published, relay_events, recover, message, publish_outbox_events,
  is_nil, counted, run_outbox_relay_once,
}
use mern_chat_app.Common.Sorting.{In-update_hit, In-of_update}
use mern_chat_app.Outbox.Claim.{is_any_of-ids}
use mern_chat_app.Relay.Outcome.{set_failed, fail_events_settle, fail_events_published}
use mern_chat_app.Relay.Sending.{publish-rows, publish_sends}
use mern_chat_app.Outbox.Order.{IsValid, claim-IsValid}
use mern_chat_app.Outbox.Rows.{same_row}
use mern_chat_app.Outbox.Batch.{claim_sound}
use mern_chat_app.Outbox.Exclusive.{claim_rows}
use mern_chat_app.Outbox.Cases.{lease}

-- A row that `markOutboxEventsPublished` has changed.
abbrev pub marked : ℕ → OutboxEvent → OutboxEvent
marked now e = record e {
  status = published;
  published_at = some now;
  locked_until = none;
  last_error = none;
}

abbrev is_batch_row : List ℕ → OutboxEvent → Bool
is_batch_row is x = is_any_of is x && is_processing x.status

module _ (turn : Turn) where
  mark_published-marked :
      (events : List OutboxEvent) (w : RelayWorld) (c : OutboxEvent)
      → In c events
      → In c w.rows
      → c.status ≡ processing
      → In (marked turn.marked_at c) (mark_published turn events w).rows
  unfolding mark_published mark_outbox_events_published
  mark_published-marked [] w c m k p = elim m [ ]
  mark_published-marked (e ∷ events) w c m k p =
      In-update_hit (is_batch_row (map (λ x. x.id) (e ∷ events))) (marked turn.marked_at) c w.rows k
        (rw
          (
            any_of_In (λ i. c.id == i) c.id _
                (In-map {A = OutboxEvent} (λ x. x.id) c (e ∷ events) m) (==_self c.id),
            p,
          )
          refl)

  mark_published_source :
      (events : List OutboxEvent) (w : RelayWorld) (y : OutboxEvent)
      → In y (mark_published turn events w).rows
      → In y w.rows
        ⊎ ((x : OutboxEvent) × In x w.rows
            × (y ≡ marked turn.marked_at x)
            × (c : OutboxEvent) × In c events
            × (x.id ≡ c.id))
  unfolding mark_published mark_outbox_events_published
  mark_published_source [] w y m = inl m
  mark_published_source (e ∷ events) w y m =
      let test = is_batch_row (map (λ x. x.id) (e ∷ events)) in
      let (x, k, same) = In-of_update test (marked turn.marked_at) y w.rows m in
      elim (Bool-cases (test x)) [
        | inl hit ↦
            let (c, chosen, ids) = is_any_of-ids x (e ∷ events) (ground arith) in
            inr (x, k, rw (hit, if◌then◌else◌) at same, c, chosen, ids)
        | inr miss ↦ inl (rw (rw (miss, if◌then◌else◌) at same) k)
      ]

  mark_published-sent :
      (events : List OutboxEvent) (w : RelayWorld) → (mark_published turn events w).sent ≡ w.sent
  unfolding mark_published
  mark_published-sent [] w = refl
  mark_published-sent (e ∷ events) w = refl

module _ (turn : Turn) (settings : Settings) (events : List OutboxEvent) (w : RelayWorld)
    (unique : (a b : OutboxEvent) → In a events → In b w.rows → b.id ≡ a.id → b ≡ a)
    (listed : (c : OutboxEvent) → In c events → In c w.rows × (c.status ≡ processing)) where
  relay_settles :
      ((i : ℕ) → turn.outcome_answers i ≡ true)
      → (c : OutboxEvent) → In c events
      → let w' = (relay_events turn settings events w).1 in
        (In (message c) w'.sent × In (marked turn.marked_at c) w'.rows)
        ⊎ In (set_failed turn settings c c) w'.rows
  unfolding relay_events recover
  relay_settles answers c m =
      let (k, p) = listed c m in
      let published_ = publish_outbox_events turn.accepts events w in
      let same = publish-rows turn.accepts events w in
      elim (Bool-cases (published_.0 && (is_nil events || turn.mark_answers))) [
        | inl all ↦
            rw (all, if◌then◌else◌)
              (inl (
                rw (mark_published-sent turn events published_.1)
                    (publish_sends turn.accepts events w c (ground arith) m),
                mark_published-marked turn events published_.1 c m (rw same k) p,
              ))
        | inr failed ↦
            rw (failed, if◌then◌else◌)
              (inr (
                fail_events_settle turn settings answers events published_.1
                  (λ a b i j e. unique b a j (listed a i).0 e) c m (rw same k) p))
      ]

  relay_published :
      (y : OutboxEvent)
      → let w' = (relay_events turn settings events w).1 in
        In y w'.rows → y.status ≡ published → In y w.rows ⊎ In (message y) w'.sent
  unfolding relay_events recover
  relay_published y m p =
      let published_ = publish_outbox_events turn.accepts events w in
      let same = publish-rows turn.accepts events w in
      elim (Bool-cases (published_.0 && (is_nil events || turn.mark_answers))) [
        | inl all ↦
            rw (all, if◌then◌else◌)
              (source all
                (mark_published_source turn events published_.1 y (rw (all, if◌then◌else◌) at m)))
        | inr failed ↦ inl (
            rw same at (
              fail_events_published turn settings events published_.1 y
                (rw (failed, if◌then◌else◌) at m) p))
      ]
    where
      published_ : Bool × RelayWorld
      published_ = publish_outbox_events turn.accepts events w

      source :
          (published_.0 && (is_nil events || turn.mark_answers)) ≡ true
          → In y published_.1.rows
            ⊎ ((x : OutboxEvent) × In x published_.1.rows
                × (y ≡ marked turn.marked_at x)
                × (c : OutboxEvent) × In c events
                × (x.id ≡ c.id))
          → In y w.rows ⊎ In (message y) (mark_published turn events published_.1).sent
      source all (inl k) = inl (rw (publish-rows turn.accepts events w) at k)
      source all (inr (x, k, e, c, chosen, ids_)) =
          let same = unique c x chosen (rw (publish-rows turn.accepts events w) at k) ids_ in
          inr (
            rw (mark_published-sent turn events published_.1, e, same)
              (publish_sends turn.accepts events w c (ground arith) chosen))

unclaimed :
    (now lease_ms : ℕ) (x y : OutboxEvent) (rows : List OutboxEvent)
    → y.status ≡ published
    → In x rows
    → (y ≡ x) ⊎ ((is_unfinished x ≡ true) × (y ≡ claimed now lease_ms x))
    → In y rows
unclaimed now lease_ms x y rows p k (inl e) = rw e k
unclaimed now lease_ms x y rows p k (inr (u, e)) = ground arith

-- The world when the events of a round are claimed.
abbrev pub claimed_world : Turn → Settings → RelayWorld → RelayWorld
claimed_world turn settings w =
    counted (record { name = codes "outbox_relay_batches_total"; labels = [] } ∷ []) (record w {
      rows =
          (claim_pending_outbox_events turn.snapshot settings.batch_size settings.lease_ms
            w.rows).0;
    })

abbrev pub batch_of : Turn → Settings → RelayWorld → List OutboxEvent
batch_of turn settings w =
    (claim_pending_outbox_events turn.snapshot settings.batch_size settings.lease_ms w.rows).1

module _ (turn : Turn) (settings : Settings) (next : ℕ) (w : RelayWorld)
    (v : IsValid (record { next_sequence = next; rows = w.rows })) where
  batch_listed :
      (c : OutboxEvent)
      → In c (batch_of turn settings w)
      → In c (claimed_world turn settings w).rows × (c.status ≡ processing)
  batch_listed c m =
      let (x, k, eligible, from, stored) =
        claim_sound turn.snapshot settings.batch_size settings.lease_ms
          (record { next_sequence = next; rows = w.rows }) v c m in
      (stored, ap (λ (e : OutboxEvent). e.status) from)

  batch_unique :
      (a b : OutboxEvent)
      → In a (batch_of turn settings w)
      → In b (claimed_world turn settings w).rows
      → b.id ≡ a.id
      → b ≡ a
  batch_unique a b m k e =
      same_row (λ x. x.id) b a _
        (claim-IsValid turn.snapshot settings.batch_size settings.lease_ms
          (record { next_sequence = next; rows = w.rows }) v).distinct
        k (batch_listed a m).0 e

  -- One round on a valid table in which the claim and the updates of single events are answered: every
  -- claimed event was sent and is marked published, or it is rescheduled or dead-lettered by its number
  -- of attempts, whatever Kafka refuses and whether or not the marking is answered.
  pub run-settles :
      turn.claim_answers ≡ true
      → ((i : ℕ) → turn.outcome_answers i ≡ true)
      → (c : OutboxEvent) → In c (batch_of turn settings w)
      → let w' = (run_outbox_relay_once turn settings w).1 in
        (In (message c) w'.sent × In (marked turn.marked_at c) w'.rows)
        ⊎ In (set_failed turn settings c c) w'.rows
  unfolding run_outbox_relay_once
  run-settles claim answers c m =
      rw (claim, if◌then◌else◌)
        (relay_settles turn settings (batch_of turn settings w) (claimed_world turn settings w)
          batch_unique batch_listed answers c m)

  -- After one round on a valid table, whatever queries fail: a published row was published before, or
  -- its message is among the sent ones.
  pub run-published :
      (y : OutboxEvent)
      → In y (run_outbox_relay_once turn settings w).1.rows
      → y.status ≡ published
      → In y w.rows ⊎ In (message y) (run_outbox_relay_once turn settings w).1.sent
  unfolding run_outbox_relay_once
  run-published y m p = elim (Bool-cases turn.claim_answers) [
    | inl claim ↦
        rw (claim, if◌then◌else◌)
          (before_claim (
            relay_published turn settings (batch_of turn settings w) (claimed_world turn settings w)
              batch_unique batch_listed y (rw (claim, if◌then◌else◌) at m) p))
    | inr fails ↦ inl (rw (fails, if◌then◌else◌) at m)
  ]
    where
      before_claim : {P : Type 0} → In y (claimed_world turn settings w).rows ⊎ P → In y w.rows ⊎ P
      before_claim (inr h) = inr h
      before_claim (inl k) =
          let (x, k', source) =
            claim_rows turn.snapshot settings.batch_size settings.lease_ms w.rows y k in
          inl (unclaimed turn.snapshot.now (lease settings.lease_ms) x y w.rows p k' source)
