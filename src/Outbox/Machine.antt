-- ===== src/Outbox/Machine.antt =====
-- The life of one outbox event: which changes the statements of the repository make to a row.
use mern_chat_app.Common.{
  ℕ, ◌+◌, ◌≡◌, refl, List, Bool, arith, ◌⊎◌, In, true, ◌∷◌, Bool-cases, inl, any, subst, ◌==◌, inr,
  if◌then◌else◌, In-append, ◌&&◌, map, [],
}
use mern_chat_app.Common.Sql.{update}
use mern_chat_app.Outbox.{
  OutboxEvent, claim_ids, mark_outbox_events_published, OutboxTable, pending, Snapshot,
  insert_outbox_event, published, reschedule_outbox_event, processing, claim_pending_outbox_events,
  dead_letter_outbox_event, dead_lettered, claimed, is_any_of, is_processing, candidates,
  is_unfinished,
}
use mern_chat_app.Outbox.Order.{apply, Statement, run, run_inv}
use mern_chat_app.Outbox.Cases.{claim_cases, lease, batch}
use mern_chat_app.Common.Sorting.{In-update}

-- What no statement changes: the identity of the event, its place in the order, and what will be
-- sent.
pub record IsSameEvent (e e' : OutboxEvent) : Type 0 where
  pub id : e'.id ≡ e.id
  pub sequence_number : e'.sequence_number ≡ e.sequence_number
  pub aggregate_id : e'.aggregate_id ≡ e.aggregate_id
  pub event_type : e'.event_type ≡ e.event_type
  pub topic : e'.topic ≡ e.topic
  pub partition_key : e'.partition_key ≡ e.partition_key
  pub payload : e'.payload ≡ e.payload
  pub headers : e'.headers ≡ e.headers

-- One statement's effect on the status and the number of attempts of a row.
pub data Moves (e e' : OutboxEvent) : Type 0 where
  stays : e' ≡ e → Moves e e'
  claims :
      (e.status ≡ pending) ⊎ (e.status ≡ processing)
      → e'.status ≡ processing
      → e'.attempt_count ≡ e.attempt_count + 1
      → Moves e e'
  publishes :
      e.status ≡ processing
      → e'.status ≡ published
      → e'.attempt_count ≡ e.attempt_count
      → Moves e e'
  retries :
      e.status ≡ processing → e'.status ≡ pending → e'.attempt_count ≡ e.attempt_count → Moves e e'
  dies :
      e.status ≡ processing
      → e'.status ≡ dead_lettered
      → e'.attempt_count ≡ e.attempt_count
      → Moves e e'

IsSameEvent-refl : (e : OutboxEvent) → IsSameEvent e e
IsSameEvent-refl e = record {
  id = refl;
  sequence_number = refl;
  aggregate_id = refl;
  event_type = refl;
  topic = refl;
  partition_key = refl;
  payload = refl;
  headers = refl;
}

-- What becomes of the row `e` in a table.
abbrev Successor : OutboxEvent → List OutboxEvent → Type 0
Successor e rows = (e' : OutboxEvent) × In e' rows × IsSameEvent e e' × Moves e e'

unchanged : (e : OutboxEvent) (rows : List OutboxEvent) → In e rows → Successor e rows
unchanged e rows m = (e, m, IsSameEvent-refl e, stays refl)

update-Successor :
    (p : OutboxEvent → Bool) (f : OutboxEvent → OutboxEvent) (e : OutboxEvent)
    (rows : List OutboxEvent)
    → In e rows
    → IsSameEvent e (f e)
    → (p e ≡ true → Moves e (f e))
    → Successor e (update p f rows)
update-Successor p f e rows m same moves = elim (Bool-cases (p e)) [
  | inl hit ↦ (f e, rw hit at (In-update {A = OutboxEvent} p f e rows m), same, moves hit)
  | inr miss ↦ unchanged e (update p f rows) (rw miss at (In-update {A = OutboxEvent} p f e rows m))
]

claim-Successor :
    (s : Snapshot) (batch_size lease_ms : ℕ) (rows : List OutboxEvent) (e : OutboxEvent)
    → In e rows
    → Successor e (claim_pending_outbox_events s batch_size lease_ms rows).0
unfolding claim_ids
claim-Successor s batch_size lease_ms rows e m =
    claim_cases (λ r. Successor e r.0) s batch_size lease_ms rows (unchanged e rows m)
      (λ f front.
        update-Successor
          (λ x.
            is_any_of (map (λ y. y.id) (candidates s (batch batch_size) f rows)) x
            && is_unfinished x)
          (claimed s.now (lease lease_ms)) e rows m (ground arith)
          (λ hit. claims (ground arith) refl refl))

publish-Successor :
    (now : ℕ) (is : List ℕ) (rows : List OutboxEvent) (e : OutboxEvent)
    → In e rows
    → Successor e (mark_outbox_events_published now is rows)
unfolding mark_outbox_events_published
publish-Successor now [] rows e m = unchanged e rows m
publish-Successor now (i ∷ is) rows e m =
    update-Successor (λ x. is_any_of (i ∷ is) x && is_processing x.status) _ e rows m (ground arith)
      (λ hit. publishes (ground arith) refl refl)

-- One statement of the repository on any table: each row is still there, as the same event, and its
-- status and number of attempts made one of the five moves at most. A claim takes a pending or
-- processing row and counts an attempt; only a processing row is published, retried or given up.
pub apply-Moves :
    (t : OutboxTable) (c : Statement) (e : OutboxEvent)
    → In e t.rows
    → (e' : OutboxEvent) × In e' (apply t c).rows × IsSameEvent e e' × Moves e e'
unfolding apply insert_outbox_event reschedule_outbox_event dead_letter_outbox_event
apply-Moves t (Statement.insert now input) e m =
    elim (Bool-cases (any (λ x. x.id == input.id) t.rows)) [
      | inl taken ↦ rw (taken, if◌then◌else◌) (unchanged e t.rows m)
      | inr new ↦ rw (new, if◌then◌else◌) (unchanged e _ (In-append e t.rows _ (inl m)))
    ]
apply-Moves t (Statement.claim s batch_size lease_ms) e m =
    claim-Successor s batch_size lease_ms t.rows e m
apply-Moves t (Statement.publish now is) e m = publish-Successor now is t.rows e m
apply-Moves t (Statement.reschedule i at message) e m =
    update-Successor (λ x. x.id == i && is_processing x.status) _ e t.rows m (ground arith)
      (λ hit. retries (ground arith) refl refl)
apply-Moves t (Statement.dead_letter i message) e m =
    update-Successor (λ x. x.id == i && is_processing x.status) _ e t.rows m (ground arith)
      (λ hit. dies (ground arith) refl refl)

-- A published or dead-lettered event.
abbrev pub IsFinal : OutboxEvent → Type 0
IsFinal e = (e.status ≡ published) ⊎ (e.status ≡ dead_lettered)

final_stays : (e e' : OutboxEvent) → IsFinal e → Moves e e' → e' ≡ e
final_stays e e' f (stays same) = same
final_stays e e' f (claims from to count) = ground arith
final_stays e e' f (publishes from to count) = ground arith
final_stays e e' f (retries from to count) = ground arith
final_stays e e' f (dies from to count) = ground arith

-- Whatever statements run, a published or dead-lettered row stays in the table as it is.
pub run-final :
    (t : OutboxTable) (cs : List Statement) (e : OutboxEvent)
    → In e t.rows
    → IsFinal e
    → In e (run t cs).rows
run-final t cs e m f =
    run_inv (λ u. In e u.rows)
      (λ u c k.
        let (e', k', same, moves) = apply-Moves u c e k in
        subst (λ x. In x (apply u c).rows) (final_stays e e' f moves) k')
      t cs m
