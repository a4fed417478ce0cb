-- ===== src/Outbox/Tests.antt =====
-- Two events of one conversation in the table, and what the statements make of them.
use mern_chat_app.Common.{
  ℕ, codes, List, [], ◌∷◌, In, inl, inr, refl, ◌≡◌, arith, ◌≤◌, false, none, ◌+◌, ◌≢◌, min, ◌*◌,
}
use mern_chat_app.Outbox.{
  OutboxTable, OutboxEvent, OutboxInsert, Snapshot, inserted, claimed, claim_pending_outbox_events,
  published, calculate_outbox_backoff_ms, insert_outbox_event,
}
use mern_chat_app.Outbox.Order.{IsValid, Statement, run, apply, empty, run-IsValid}
use mern_chat_app.Outbox.Cases.{lease}
use mern_chat_app.Outbox.Batch.{claim_contiguous}
use mern_chat_app.Outbox.Exclusive.{claim_exclusive}
use mern_chat_app.Outbox.Progress.{claim_progress}
use mern_chat_app.Outbox.Machine.{apply-Moves, run-final, IsSameEvent, Moves}
use mern_chat_app.Outbox.Backoff.{backoff_lem}
use mern_chat_app.Js.{null}

abbrev input : ℕ → ℕ → OutboxInsert
input id aggregate = record {
  id = id;
  aggregate_type = codes "conversation";
  aggregate_id = aggregate;
  event_type = codes "message.created";
  event_version = 1;
  topic = codes "chat.message.v1";
  partition_key = codes "k";
  payload = null;
  headers = [];
}

abbrev first_event : OutboxEvent
first_event = inserted 0 1 (input 11 7)

abbrev second_event : OutboxEvent
second_event = inserted 0 2 (input 12 7)

abbrev other_event : OutboxEvent
other_event = inserted 0 3 (input 13 8)

abbrev table : OutboxTable
table = record { next_sequence = 4; rows = first_event ∷ second_event ∷ other_event ∷ [] }

abbrev history : List Statement
history =
    Statement.insert 0 (input 11 7)
    ∷ Statement.insert 0 (input 12 7)
    ∷ Statement.insert 0 (input 13 8)
    ∷ []

-- The three inserts make the table.
history_makes : run empty history ≡ table
unfolding run apply insert_outbox_event
history_makes = refl

table-IsValid : IsValid table
unfolding run apply insert_outbox_event
table-IsValid = run-IsValid history

run-IsValid_example : IsValid (run empty history)
run-IsValid_example = run-IsValid history

abbrev early : Snapshot
early = record { now = 5; is_locked = λ i. false }

-- The first claim takes both events of the first aggregate.
claims_both :
    (claim_pending_outbox_events early 100 1000 table.rows).1
    ≡ claimed 5 1000 first_event ∷ claimed 5 1000 second_event ∷ []
unfolding claim_pending_outbox_events
claims_both = refl

claim_contiguous_example :
    In
      (claimed 5 (lease 1000) first_event)
      (claim_pending_outbox_events early 100 1000 table.rows).1
unfolding claim_pending_outbox_events
claim_contiguous_example =
    claim_contiguous early 100 1000 table table-IsValid (λ i. refl) (claimed 5 1000 second_event)
      first_event (inr (inl refl)) (inl refl) refl (omega arith) refl

-- A second claim takes the other aggregate.
claim_exclusive_example : other_event.aggregate_id ≢ first_event.aggregate_id
unfolding claim_pending_outbox_events
claim_exclusive_example =
    claim_exclusive early early 100 100 1000 1000 table table-IsValid (λ i. refl) (omega arith)
      (claimed 5 1000 first_event) (claimed 5 1000 other_event) (inl refl) (inl refl)

claim_progress_example :
    (c : OutboxEvent) × In c (claim_pending_outbox_events early 1 1000 table.rows).1
    × (c.sequence_number ≤ 3)
claim_progress_example =
    claim_progress early 1 1000 table table-IsValid other_event (inr (inr (inl refl))) refl

apply-Moves_example :
    (e' : OutboxEvent) × In e' (apply table (Statement.claim early 1 1000)).rows
    × IsSameEvent first_event e'
    × Moves first_event e'
apply-Moves_example = apply-Moves table (Statement.claim early 1 1000) first_event (inl refl)

abbrev published_event : OutboxEvent
published_event = record first_event { status = published; published_at = none }

run-final_example :
    In published_event
      (run
        (record { next_sequence = 2; rows = published_event ∷ [] })
        (Statement.claim early 1 1000 ∷ Statement.dead_letter 11 (codes "e") ∷ [])).rows
run-final_example =
    run-final (record { next_sequence = 2; rows = published_event ∷ [] })
      (Statement.claim early 1 1000 ∷ Statement.dead_letter 11 (codes "e") ∷ []) published_event
      (inl refl) (inl refl)

backoff_lem_example :
    (calculate_outbox_backoff_ms 1 1000 60000 ≡ min 1000 60000)
    × (calculate_outbox_backoff_ms (3 + 2) 1000 60000
        ≡ min (2 * calculate_outbox_backoff_ms (3 + 1) 1000 60000) 60000)
    × (calculate_outbox_backoff_ms 3 1000 60000 ≤ 60000)
backoff_lem_example = backoff_lem 3 1000 60000
