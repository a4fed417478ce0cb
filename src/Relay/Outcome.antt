-- ===== src/Relay/Outcome.antt =====
-- What becomes of the events of a batch in the outbox table.
use mathlib.Core.Path.{fun_ext}
use mern_chat_app.Common.{
  ℕ, ◌≡◌, if◌then◌else◌, leb, In, ◌==◌, none, Bool-cases, ◌&&◌, some, inl, take, inr, false, ◌+◌,
  ◌*◌, arith, Bool, List, true, ◌∷◌, [], refl, ℕ_discrete, ap,
}
use mern_chat_app.Relay.{RelayWorld, Turn, Settings, fail_event, fail_events}
use mern_chat_app.Outbox.{
  OutboxEvent, dead_letter_outbox_event, reschedule_outbox_event, dead_lettered, processing,
  is_processing, pending, calculate_outbox_backoff_ms, published,
}
use mern_chat_app.Common.Sorting.{In-update_hit, In-update_miss, In-of_update}
use mern_chat_app.Common.Sql.{update}

-- The SET of the two statements that end a failed event's turn, on the row `x` of the event `e`.
abbrev pub set_failed : Turn → Settings → OutboxEvent → OutboxEvent → OutboxEvent
set_failed turn settings e x =
    if leb settings.max_attempts e.attempt_count
    then record x {
      status = dead_lettered;
      locked_until = none;
      last_error = some (take 4_000 turn.error_message);
    }
    else record x {
      status = pending;
      available_at =
          (turn.date_now e.id
            + calculate_outbox_backoff_ms e.attempt_count settings.base_backoff_ms
                settings.max_backoff_ms)
          * 1000;
      locked_until = none;
      last_error = some (take 4_000 turn.error_message);
    }

-- Their WHERE.
abbrev is_processing_row : ℕ → OutboxEvent → Bool
is_processing_row i x = x.id == i && is_processing x.status

module _ (turn : Turn) (settings : Settings) where
  fail_event-rows :
      (e : OutboxEvent) (w : RelayWorld)
      → (fail_event turn settings e w).rows
        ≡ update (is_processing_row e.id) (set_failed turn settings e) w.rows
  unfolding fail_event dead_letter_outbox_event reschedule_outbox_event
  fail_event-rows e w = elim (Bool-cases (leb settings.max_attempts e.attempt_count)) [
    | inl last ↦
        rw (last, if◌then◌else◌)
          (ap (λ f. update (is_processing_row e.id) f w.rows)
            (fun_ext λ x. rw (last, if◌then◌else◌) refl))
    | inr more ↦
        rw (more, if◌then◌else◌)
          (ap (λ f. update (is_processing_row e.id) f w.rows)
            (fun_ext λ x. rw (more, if◌then◌else◌) refl))
  ]

  fail_event_self :
      (e : OutboxEvent) (w : RelayWorld)
      → In e w.rows
      → e.status ≡ processing
      → In (set_failed turn settings e e) (fail_event turn settings e w).rows
  fail_event_self e w m p = rw (fail_event-rows e w) (
      In-update_hit (is_processing_row e.id) (set_failed turn settings e) e w.rows m (ground arith))

  -- A row that is no longer processing, or has another id, stays.
  fail_event_other :
      (e x : OutboxEvent) (w : RelayWorld)
      → In x w.rows
      → is_processing_row e.id x ≡ false
      → In x (fail_event turn settings e w).rows
  fail_event_other e x w m h =
      rw (fail_event-rows e w)
        (In-update_miss (is_processing_row e.id) (set_failed turn settings e) x w.rows m h)

  -- Rows that are not processing stay.
  fail_events_keep :
      (events : List OutboxEvent) (w : RelayWorld) (x : OutboxEvent)
      → In x w.rows
      → is_processing x.status ≡ false
      → In x (fail_events turn settings events w).1.rows
  unfolding fail_events
  fail_events_keep [] w x m h = m
  fail_events_keep (e ∷ events) w x m h =
      ground
        (arith, fail_event_other e x w m, fail_events_keep events (fail_event turn settings e w) x)

  settle_head :
      ((i : ℕ) → turn.outcome_answers i ≡ true)
      → (c : OutboxEvent) (events : List OutboxEvent) (w : RelayWorld) → In c w.rows
      → c.status ≡ processing
      → In (set_failed turn settings c c) (fail_events turn settings (c ∷ events) w).1.rows
  unfolding fail_events
  settle_head answers c events w k p =
      rw (answers c.id, if◌then◌else◌)
        (fail_events_keep events (fail_event turn settings c w) (set_failed turn settings c c)
          (fail_event_self c w k p) (ground arith))

  -- With every query answered each event of the batch leaves `processing`.
  pub fail_events_settle :
      ((i : ℕ) → turn.outcome_answers i ≡ true)
      → (events : List OutboxEvent) (w : RelayWorld)
      → ((a b : OutboxEvent) → In a events → In b events → a.id ≡ b.id → a ≡ b)
      → (c : OutboxEvent) → In c events
      → In c w.rows
      → c.status ≡ processing
      → In (set_failed turn settings c c) (fail_events turn settings events w).1.rows
  unfolding fail_events
  fail_events_settle answers [] w d c m k p = elim m [ ]
  fail_events_settle answers (e ∷ events) w d c (inl same) k p =
      rw same (settle_head answers e events w (rw same at k) (rw same at p))
  fail_events_settle answers (e ∷ events) w d c (inr m) k p = elim (ℕ_discrete c.id e.id) [
    | yes again ↦
        let same = d c e (inr m) (inl refl) again in
        rw same (settle_head answers e events w (rw same at k) (rw same at p))
    | no other ↦
        rw (answers e.id, if◌then◌else◌)
          (fail_events_settle answers events (fail_event turn settings e w)
            (λ a b i j. d a b (inr i) (inr j)) c m (fail_event_other e c w k (ground arith)) p)
  ]

  -- A row that is published after the loop was so before it.
  pub fail_events_published :
      (events : List OutboxEvent) (w : RelayWorld) (y : OutboxEvent)
      → In y (fail_events turn settings events w).1.rows
      → y.status ≡ published
      → In y w.rows
  unfolding fail_events
  fail_events_published [] w y m p = m
  fail_events_published (e ∷ events) w y m p = elim (Bool-cases (turn.outcome_answers e.id)) [
    | inl a ↦ before (
        fail_events_published events (fail_event turn settings e w) y (rw (a, if◌then◌else◌) at m)
          p)
    | inr r ↦ rw (r, if◌then◌else◌) at m
  ]
    where
      untouched :
          (x : OutboxEvent)
          → y ≡ (if is_processing_row e.id x then set_failed turn settings e x else x)
          → y ≡ x
      untouched x same = ground arith

      before : In y (fail_event turn settings e w).rows → In y w.rows
      before k =
          let (x, k', same) =
            In-of_update (is_processing_row e.id) (set_failed turn settings e) y w.rows
              (rw (fail_event-rows e w) at k) in
          rw (untouched x same) k'
