-- ===== src/Outbox/Order.antt =====
-- The invariant of the outbox table: the constraints of Backend/db/migrations/003_outbox.sql and the
-- identity column, against every statement of the repository.
use mern_chat_app.Common.{
  ℕ, ◌+◌, ◌<◌, ◌≡◌, refl, ◌≢◌, Bool, true, false, Option, none, some, List, [], ◌∷◌, ◌++◌, map, All,
  Text, arith, if◌then◌else◌, Bool-cases, any, ◌==◌, All-append, inl, inr,
}
use mern_chat_app.Common.Sql.{update}
use mern_chat_app.Errors.{Result, ok, err}
use mern_chat_app.Outbox.Rows.{Rises, Distinct, keys-update}
use mern_chat_app.Outbox.Cases.{claim_cases, lease}
use mern_chat_app.Outbox.{
  OutboxEvent, OutboxInsert, OutboxTable, processing, published, inserted, insert_outbox_event,
  Snapshot, claimed, claim_ids, claim_pending_outbox_events, mark_outbox_events_published,
  reschedule_outbox_event, dead_letter_outbox_event,
}

abbrev is_some {ℓ} : {A : Type ℓ} → Option A → Bool
is_some none = false
is_some (some a) = true

-- The CHECK constraints of the table on one row.
abbrev pub is_checked : OutboxEvent → Bool
is_checked e = elim e.status [
  | processing ↦ is_some e.locked_until
  | published ↦ is_some e.published_at
  | _ ↦ true
]

abbrev pub sequences : List OutboxEvent → List ℕ
sequences = map (λ e. e.sequence_number)

abbrev pub ids : List OutboxEvent → List ℕ
ids = map (λ e. e.id)

pub record IsValid (t : OutboxTable) : Type 0 where
  pub rises : Rises (sequences t.rows)
  pub below : All (λ k. k < t.next_sequence) (sequences t.rows)
  pub distinct : Distinct (ids t.rows)
  pub checked : All (λ e. is_checked e ≡ true) t.rows

-- The statements of the repository, with what each takes from outside.
pub data Statement : Type 0 where
  insert : (now : ℕ) → OutboxInsert → Statement
  claim : Snapshot → (batch_size lease_ms : ℕ) → Statement
  publish : (now : ℕ) → List ℕ → Statement
  reschedule : (id next_attempt_at : ℕ) → Text → Statement
  dead_letter : (id : ℕ) → Text → Statement

-- A statement that fails leaves the table as it was.
abbrev pub after : OutboxTable → Result OutboxTable → OutboxTable
after t (ok u) = u
after t (err e) = t

unfoldable pub apply : OutboxTable → Statement → OutboxTable
apply t (insert now input) = after t (insert_outbox_event now input t)
apply t (claim s batch_size lease_ms) = record t {
  rows = (claim_pending_outbox_events s batch_size lease_ms t.rows).0;
}
apply t (publish now is) = record t { rows = mark_outbox_events_published now is t.rows }
apply t (reschedule i at message) = record t { rows = reschedule_outbox_event i at message t.rows }
apply t (dead_letter i message) = record t { rows = dead_letter_outbox_event i message t.rows }

unfoldable pub run : OutboxTable → List Statement → OutboxTable
run t [] = t
run t (c ∷ cs) = run (apply t c) cs

abbrev pub empty : OutboxTable
empty = record { next_sequence = 1; rows = [] }

All-update :
    (p : OutboxEvent → Bool) (f : OutboxEvent → OutboxEvent) (rows : List OutboxEvent)
    → ((e : OutboxEvent) → is_checked (f e) ≡ true)
    → All (λ e. is_checked e ≡ true) rows
    → All (λ e. is_checked e ≡ true) (update p f rows)
All-update p f [] h k = tt
All-update p f (r ∷ rows) h k = ground (arith, h r, All-update p f rows h k.1)

-- An UPDATE that keeps both keys and writes rows that meet the constraints keeps the invariant.
update-IsValid :
    (p : OutboxEvent → Bool) (f : OutboxEvent → OutboxEvent) (t : OutboxTable)
    → ((e : OutboxEvent) → (f e).sequence_number ≡ e.sequence_number)
    → ((e : OutboxEvent) → (f e).id ≡ e.id)
    → ((e : OutboxEvent) → is_checked (f e) ≡ true)
    → IsValid t
    → IsValid (record t { rows = update p f t.rows })
update-IsValid p f t hs hi hc v = record {
  rises = rw (keys-update (λ e. e.sequence_number) p f t.rows hs) v.rises;
  below = rw (keys-update (λ e. e.sequence_number) p f t.rows hs) v.below;
  distinct = rw (keys-update (λ e. e.id) p f t.rows hi) v.distinct;
  checked = All-update p f t.rows hc v.checked;
}

claim_ids-IsValid :
    (now lease_ms : ℕ) (is : List ℕ) (t : OutboxTable)
    → IsValid t
    → IsValid (record t { rows = (claim_ids now lease_ms is t.rows).0 })
unfolding claim_ids
claim_ids-IsValid now lease_ms is t v =
    update-IsValid _ (claimed now lease_ms) t (λ e. refl) (λ e. refl) (λ e. refl) v

pub claim-IsValid :
    (s : Snapshot) (batch_size lease_ms : ℕ) (t : OutboxTable)
    → IsValid t
    → IsValid (record t { rows = (claim_pending_outbox_events s batch_size lease_ms t.rows).0 })
claim-IsValid s batch_size lease_ms t v =
    claim_cases (λ r. IsValid (record t { rows = r.0 })) s batch_size lease_ms t.rows v
      (λ f e. claim_ids-IsValid s.now (lease lease_ms) _ t v)

module _ {A : Type 0} (key : A → ℕ) where
  All-keys-append :
      (P : ℕ → Type 0) (rows : List A) (a : A)
      → All P (map key rows)
      → P (key a)
      → All P (map key (rows ++ a ∷ []))
  All-keys-append P [] a h k = (k, tt)
  All-keys-append P (r ∷ rows) a h k = (h.0, All-keys-append P rows a h.1 k)

  Rises-append :
      (rows : List A) (a : A)
      → Rises (map key rows)
      → All (λ k. k < key a) (map key rows)
      → Rises (map key (rows ++ a ∷ []))
  Rises-append [] a r h = (tt, tt)
  Rises-append (b ∷ rows) a r h =
      (All-keys-append (λ j. key b < j) rows a r.0 h.0, Rises-append rows a r.1 h.1)

  Distinct-append :
      (rows : List A) (a : A)
      → Distinct (map key rows)
      → any (λ b. key b == key a) rows ≡ false
      → Distinct (map key (rows ++ a ∷ []))
  Distinct-append [] a d h = (tt, tt)
  Distinct-append (b ∷ rows) a d h = (
    All-keys-append (λ j. key b ≢ j) rows a d.0 (ground arith),
    Distinct-append rows a d.1 (ground arith),
  )

All-lt_suc : (n : ℕ) (ks : List ℕ) → All (λ k. k < n) ks → All (λ k. k < n + 1) ks
All-lt_suc n [] h = tt
All-lt_suc n (k ∷ ks) h = (omega arith, All-lt_suc n ks h.1)

append-IsValid :
    (now : ℕ) (input : OutboxInsert) (t : OutboxTable)
    → any (λ e. e.id == input.id) t.rows ≡ false
    → IsValid t
    → IsValid (record {
      next_sequence = t.next_sequence + 1;
      rows = t.rows ++ inserted now t.next_sequence input ∷ [];
    })
append-IsValid now input t new v = record {
  rises = Rises-append (λ e. e.sequence_number) t.rows row v.rises v.below;
  below =
      All-keys-append (λ e. e.sequence_number) (λ k. k < t.next_sequence + 1) t.rows row
        (All-lt_suc t.next_sequence (sequences t.rows) v.below) (omega arith);
  distinct = Distinct-append (λ e. e.id) t.rows row v.distinct new;
  checked = All-append (λ e. is_checked e ≡ true) t.rows (row ∷ []) v.checked (refl, tt);
}
  where
    row : OutboxEvent
    row = inserted now t.next_sequence input

publish-IsValid :
    (now : ℕ) (is : List ℕ) (t : OutboxTable)
    → IsValid t
    → IsValid (record t { rows = mark_outbox_events_published now is t.rows })
unfolding mark_outbox_events_published
publish-IsValid now [] t v = v
publish-IsValid now (i ∷ is) t v = update-IsValid _ _ t (λ e. refl) (λ e. refl) (λ e. refl) v

-- Every statement keeps the invariant.
pub apply-IsValid : (t : OutboxTable) (c : Statement) → IsValid t → IsValid (apply t c)
unfolding apply insert_outbox_event reschedule_outbox_event dead_letter_outbox_event
apply-IsValid t (insert now input) v = elim (Bool-cases (any (λ e. e.id == input.id) t.rows)) [
  | inl e ↦ rw (e, if◌then◌else◌) v
  | inr e ↦ rw (e, if◌then◌else◌) (append-IsValid now input t e v)
]
apply-IsValid t (claim s batch_size lease_ms) v = claim-IsValid s batch_size lease_ms t v
apply-IsValid t (publish now is) v = publish-IsValid now is t v
apply-IsValid t (reschedule i at message) v =
    update-IsValid _ _ t (λ e. refl) (λ e. refl) (λ e. refl) v
apply-IsValid t (dead_letter i message) v =
    update-IsValid _ _ t (λ e. refl) (λ e. refl) (λ e. refl) v

empty-IsValid : IsValid empty
empty-IsValid = record { rises = tt; below = tt; distinct = tt; checked = tt }

-- What every statement keeps holds after any history.
pub run_inv {ℓ} :
    (P : OutboxTable → Type ℓ)
    → ((t : OutboxTable) (c : Statement) → P t → P (apply t c))
    → (t : OutboxTable) (cs : List Statement) → P t
    → P (run t cs)
unfolding run
run_inv P keeps t [] h = h
run_inv P keeps t (c ∷ cs) h = run_inv P keeps (apply t c) cs (keeps t c h)

-- Whatever statements have run on an empty table: its sequence numbers rise along the rows and stay
-- below the next one, its ids are distinct, a processing row has a lease and a published row has
-- the time of its publication.
pub run-IsValid : (cs : List Statement) → IsValid (run empty cs)
run-IsValid cs = run_inv IsValid apply-IsValid empty cs empty-IsValid
