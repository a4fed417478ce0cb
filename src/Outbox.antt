-- ===== src/Outbox.antt =====
-- Backend/repositories/postgres/outbox.repository.ts over the table of
-- Backend/db/migrations/003_outbox.sql. The table is the list of its rows in the order of insertion,
-- each statement is a function of the table, and a time is a number of microseconds.
pub mod Rows
pub mod Cases
pub mod Order
pub mod Claim
pub mod Batch
pub mod Exclusive
pub mod Progress
pub mod Machine
pub mod Backoff
pub mod Tests
use mern_chat_app.Common.{
  ℕ, ◌+◌, ◌-◌, ◌*◌, ◌^◌, Text, Bool, true, false, not, ◌&&◌, ◌||◌, Option, none, some, List, [],
  ◌∷◌, ◌++◌, map, ltb, leb, ◌==◌, if◌then◌else◌, any, take, head?, min, max, length, codes,
}
use mern_chat_app.Common.Sql.{select, update, order_by}
use mern_chat_app.Common.Sorting.{by_key}
use mern_chat_app.Errors.{Result, ok, err, pg}
use mern_chat_app.Js.{Js}

pub data OutboxStatus : Type 0 where
  pending processing published dead_lettered : OutboxStatus

-- `payload` is the JSON of the event, `headers` the pairs of a name and a value.
pub record OutboxEvent : Type 0 where
  pub id : ℕ
  pub sequence_number : ℕ
  pub aggregate_type : Text
  pub aggregate_id : ℕ
  pub event_type : Text
  pub event_version : ℕ
  pub topic : Text
  pub partition_key : Text
  pub payload : Js
  pub headers : List (Text × Text)
  pub status : OutboxStatus
  pub attempt_count : ℕ
  pub available_at : ℕ
  pub locked_until : Option ℕ
  pub last_error : Option Text
  pub created_at : ℕ
  pub published_at : Option ℕ

-- The values that `insertOutboxEvent` binds to the nine columns of its INSERT.
pub record OutboxInsert : Type 0 where
  pub id : ℕ
  pub aggregate_type : Text
  pub aggregate_id : ℕ
  pub event_type : Text
  pub event_version : ℕ
  pub topic : Text
  pub partition_key : Text
  pub payload : Js
  pub headers : List (Text × Text)

-- The table with the next value of its identity column `sequence_number`.
pub record OutboxTable : Type 0 where
  pub next_sequence : ℕ
  pub rows : List OutboxEvent

-- A row as INSERT makes it, with the defaults of the columns that it does not name.
abbrev pub inserted : ℕ → ℕ → OutboxInsert → OutboxEvent
inserted now sequence input = record {
  id = input.id;
  sequence_number = sequence;
  aggregate_type = input.aggregate_type;
  aggregate_id = input.aggregate_id;
  event_type = input.event_type;
  event_version = input.event_version;
  topic = input.topic;
  partition_key = input.partition_key;
  payload = input.payload;
  headers = input.headers;
  status = pending;
  attempt_count = 0;
  available_at = now;
  locked_until = none;
  last_error = none;
  created_at = now;
  published_at = none;
}

-- INSERT: a second row with an id violates the primary key.
unfoldable pub insert_outbox_event : ℕ → OutboxInsert → OutboxTable → Result OutboxTable
insert_outbox_event now input t =
    if any (λ e. e.id == input.id) t.rows
    then err (pg (codes "23505"))
    else ok (record {
      next_sequence = t.next_sequence + 1;
      rows = t.rows ++ inserted now t.next_sequence input ∷ [];
    })

abbrev pub is_pending : OutboxStatus → Bool
is_pending pending = true
is_pending _ = false

abbrev pub is_processing : OutboxStatus → Bool
is_processing processing = true
is_processing _ = false

-- `status IN ('pending', 'processing')`.
abbrev pub is_unfinished : OutboxEvent → Bool
is_unfinished e = is_pending e.status || is_processing e.status

-- `locked_until <= NOW()`, which is not true of NULL.
abbrev pub has_passed : ℕ → Option ℕ → Bool
has_passed now none = false
has_passed now (some t) = leb t now

-- The condition on status and time that the claim's two queries repeat.
abbrev pub is_eligible : ℕ → OutboxEvent → Bool
is_eligible now e =
    (is_pending e.status && leb e.available_at now)
    || (is_processing e.status && has_passed now e.locked_until)

-- The first NOT EXISTS: no unfinished event of the aggregate is earlier.
abbrev pub is_first_unfinished : List OutboxEvent → OutboxEvent → Bool
is_first_unfinished rows e = not (
    any
      (λ x.
        x.aggregate_id == e.aggregate_id
        && ltb x.sequence_number e.sequence_number
        && is_unfinished x)
      rows)

-- What a claim finds when it runs: the time, and the rows (by id) that other transactions hold
-- locked, which SKIP LOCKED passes over.
pub record Snapshot : Type 0 where
  pub now : ℕ
  pub is_locked : ℕ → Bool

-- The first query, up to LIMIT 1.
unfoldable pub frontier : Snapshot → List OutboxEvent → Option OutboxEvent
frontier s rows = head? (
    order_by (by_key (λ e. e.sequence_number)) (
      select (λ e. is_eligible s.now e && is_first_unfinished rows e && not (s.is_locked e.id))
        rows))

-- The second NOT EXISTS: no unfinished event between the frontier and `e` is still waiting.
abbrev pub is_unblocked : ℕ → List OutboxEvent → ℕ → OutboxEvent → Bool
is_unblocked now rows frontier_sequence e = not (
    any
      (λ x.
        x.aggregate_id == e.aggregate_id
        && ltb frontier_sequence x.sequence_number
        && ltb x.sequence_number e.sequence_number
        && is_unfinished x
        && not (is_eligible now x))
      rows)

-- The second query's WHERE for an aggregate and its frontier.
abbrev pub is_candidate : Snapshot → List OutboxEvent → ℕ → ℕ → OutboxEvent → Bool
is_candidate s rows aggregate_id frontier_sequence e =
    e.aggregate_id == aggregate_id
    && is_unfinished e
    && is_eligible s.now e
    && is_unblocked s.now rows frontier_sequence e
    && not (s.is_locked e.id)

-- The second query with its LIMIT.
unfoldable pub candidates : Snapshot → ℕ → OutboxEvent → List OutboxEvent → List OutboxEvent
candidates s bounded_batch_size f rows = take bounded_batch_size (
    order_by (by_key (λ e. e.sequence_number))
      (select (is_candidate s rows f.aggregate_id f.sequence_number) rows))

-- `id = ANY($1::uuid[])`.
abbrev pub is_any_of : List ℕ → OutboxEvent → Bool
is_any_of ids e = any (λ i. e.id == i) ids

-- The SET of the claim's UPDATE.
abbrev pub claimed : ℕ → ℕ → OutboxEvent → OutboxEvent
claimed now lease_ms e = record e {
  status = processing;
  attempt_count = e.attempt_count + 1;
  locked_until = some (now + lease_ms * 1000);
  last_error = none;
}

-- The rows after the claim's UPDATE for a list of ids, and those it returns, by sequence number.
unfoldable pub claim_ids : ℕ → ℕ → List ℕ → List OutboxEvent → List OutboxEvent × List OutboxEvent
claim_ids now lease_ms ids rows = (
  update (λ e. is_any_of ids e && is_unfinished e) (claimed now lease_ms) rows,
  order_by (by_key (λ e. e.sequence_number))
      (map (claimed now lease_ms) (select (λ e. is_any_of ids e && is_unfinished e) rows)),
)

abbrev pub clamp : ℕ → ℕ → ℕ → ℕ
clamp lo hi x = min (max x lo) hi

-- The rest of the transaction, from the rows that the second query found.
unfoldable pub claim_found :
    ℕ → ℕ → List OutboxEvent → List OutboxEvent → List OutboxEvent × List OutboxEvent
unfolding claim_ids
claim_found now lease_ms [] rows = (rows, [])
claim_found now lease_ms (e ∷ found) rows =
    claim_ids now (clamp 1_000 300_000 lease_ms) (map (λ e. e.id) (e ∷ found)) rows

-- `claimPendingOutboxEvents`: the table after the transaction, and the claimed events.
unfoldable pub claim_pending_outbox_events :
    Snapshot → ℕ → ℕ → List OutboxEvent → List OutboxEvent × List OutboxEvent
unfolding frontier candidates claim_found
claim_pending_outbox_events s batch_size lease_ms rows = elim (frontier s rows) [
  | none ↦ (rows, [])
  | some f ↦ claim_found s.now lease_ms (candidates s (clamp 1 100 batch_size) f rows) rows
]

unfoldable pub mark_outbox_events_published : ℕ → List ℕ → List OutboxEvent → List OutboxEvent
mark_outbox_events_published now [] rows = rows
mark_outbox_events_published now (i ∷ ids) rows =
    update (λ e. is_any_of (i ∷ ids) e && is_processing e.status)
      (λ e. record e {
        status = published;
        published_at = some now;
        locked_until = none;
        last_error = none;
      })
      rows

unfoldable pub mark_outbox_event_published : ℕ → ℕ → List OutboxEvent → List OutboxEvent
unfolding mark_outbox_events_published
mark_outbox_event_published now id rows = mark_outbox_events_published now (id ∷ []) rows

unfoldable pub reschedule_outbox_event : ℕ → ℕ → Text → List OutboxEvent → List OutboxEvent
reschedule_outbox_event id next_attempt_at error_message rows =
    update (λ e. e.id == id && is_processing e.status)
      (λ e. record e {
        status = pending;
        available_at = next_attempt_at;
        locked_until = none;
        last_error = some (take 4_000 error_message);
      })
      rows

unfoldable pub dead_letter_outbox_event : ℕ → Text → List OutboxEvent → List OutboxEvent
dead_letter_outbox_event id error_message rows =
    update (λ e. e.id == id && is_processing e.status)
      (λ e. record e {
        status = dead_lettered;
        locked_until = none;
        last_error = some (take 4_000 error_message);
      })
      rows

-- MIN(created_at) FILTER (WHERE status = 'pending').
abbrev oldest_pending : List OutboxEvent → Option ℕ
oldest_pending [] = none
oldest_pending (e ∷ rows) =
    let rest = oldest_pending rows in
    if is_pending e.status
    then some (elim rest [ none ↦ e.created_at | some t ↦ min e.created_at t ])
    else rest

pub record OperationalSnapshot : Type 0 where
  pub pending : ℕ
  pub processing : ℕ
  pub oldest_pending_age : ℕ

-- `getOutboxOperationalSnapshot`, the age in microseconds.
unfoldable pub get_outbox_operational_snapshot : ℕ → List OutboxEvent → OperationalSnapshot
get_outbox_operational_snapshot now rows = record {
  pending = length (select (λ e. is_pending e.status) rows);
  processing = length (select (λ e. is_processing e.status) rows);
  oldest_pending_age = elim (oldest_pending rows) [ none ↦ 0 | some t ↦ now - t ];
}

unfoldable pub calculate_outbox_backoff_ms : ℕ → ℕ → ℕ → ℕ
calculate_outbox_backoff_ms attempt_count base_delay_ms max_delay_ms =
    let exponent = max (attempt_count - 1) 0 in min (base_delay_ms * 2 ^ exponent) max_delay_ms
