-- ===== src/Outbox/Progress.antt =====
-- When `claimPendingOutboxEvents` finds a frontier.
use mern_chat_app.Common.{
  ℕ, zero, suc, ◌<◌, ◌≤◌, ◌≡◌, refl, inl, inr, Bool, true, false, some, List, [], ◌∷◌, In, head?,
  take, arith, in-All, any, ◌&&◌, ◌==◌, not, ltb,
}
use mern_chat_app.Common.Sql.{select, order_by}
use mern_chat_app.Common.Sorting.{
  In-select, In-order_by, order_by-IsOrdered, IsOrdered, by_key, In-of_select, In-of_order_by,
}
use mern_chat_app.Outbox.{
  OutboxEvent, OutboxTable, Snapshot, claimed, frontier, candidates, is_candidate, is_eligible,
  is_first_unfinished, is_unfinished, claim_pending_outbox_events,
}
use mern_chat_app.Outbox.Cases.{lease, batch, claim_claims}
use mern_chat_app.Outbox.Order.{IsValid}
use mern_chat_app.Outbox.Claim.{frontier_sound, candidates_sound}
use mern_chat_app.Outbox.Batch.{claim_ids_complete}

head_of_IsOrdered :
    {A : Type 0} (key : A → ℕ) (a : A) (xs : List A)
    → IsOrdered key xs
    → In a xs
    → (h : A) × (head? xs ≡ some h) × In h xs × (key h ≤ key a)
head_of_IsOrdered key a [] o m = elim m [ ]
head_of_IsOrdered key a (x ∷ xs) o (inl e) = (x, refl, inl refl, rw e (omega arith))
head_of_IsOrdered key a (x ∷ xs) o (inr m) =
    (x, refl, inl refl, in-All (λ s. key x ≤ key s) a xs o.0 m)

In-take_of_head? :
    {A : Type 0} (n : ℕ) (h : A) (xs : List A) → 0 < n → head? xs ≡ some h → In h (take n xs)
In-take_of_head? zero h xs pos e = elim pos [ ]
In-take_of_head? (suc n) h [] pos e = cc
In-take_of_head? (suc n) h (x ∷ xs) pos e = inl (cc)

-- A candidate for the first query.
abbrev pub is_ready : Snapshot → List OutboxEvent → OutboxEvent → Bool
is_ready s rows e = is_eligible s.now e && is_first_unfinished rows e && not (s.is_locked e.id)

frontier_complete :
    (s : Snapshot) (rows : List OutboxEvent) (e : OutboxEvent)
    → In e rows
    → is_ready s rows e ≡ true
    → (f : OutboxEvent) × (frontier s rows ≡ some f)
      × (is_ready s rows f ≡ true)
      × (f.sequence_number ≤ e.sequence_number)
unfolding frontier
frontier_complete s rows e m ready =
    let found = select (is_ready s rows) rows in
    let (f, first, k, below) =
      head_of_IsOrdered (λ x. x.sequence_number) e
        (order_by (by_key {A = OutboxEvent} (λ x. x.sequence_number)) found)
        (order_by-IsOrdered (λ x. x.sequence_number) found)
        (In-order_by (by_key (λ x. x.sequence_number)) e found
          (In-select (is_ready s rows) e rows m ready)) in
    (f, first, (In-of_select (is_ready s rows) f rows (In-of_order_by _ f found k)).1, below)

not_between :
    (k : ℕ) (f : OutboxEvent) (xs : List OutboxEvent) (now : ℕ)
    → any
        (λ x.
          x.aggregate_id == f.aggregate_id
          && ltb f.sequence_number x.sequence_number
          && ltb x.sequence_number f.sequence_number
          && is_unfinished x
          && not (is_eligible now x))
        xs
      ≡ false
not_between k f [] now = refl
not_between k f (x ∷ xs) now = ground (arith, not_between k f xs now)

frontier_is_candidate :
    (s : Snapshot) (rows : List OutboxEvent) (f : OutboxEvent)
    → is_ready s rows f ≡ true
    → is_candidate s rows f.aggregate_id f.sequence_number f ≡ true
frontier_is_candidate s rows f ready = rw (not_between 0 f rows s.now) (ground arith)

frontier_candidate :
    (s : Snapshot) (n : ℕ) (rows : List OutboxEvent) (f : OutboxEvent)
    → 0 < n
    → In f rows
    → is_ready s rows f ≡ true
    → (h : OutboxEvent) × In h (candidates s n f rows) × (h.sequence_number ≤ f.sequence_number)
unfolding candidates
frontier_candidate s n rows f pos m ready =
    let test = is_candidate s rows f.aggregate_id f.sequence_number in
    let found = select test rows in
    let (h, first, k, below) =
      head_of_IsOrdered (λ x. x.sequence_number) f
        (order_by (by_key {A = OutboxEvent} (λ x. x.sequence_number)) found)
        (order_by-IsOrdered (λ x. x.sequence_number) found)
        (In-order_by (by_key (λ x. x.sequence_number)) f found
          (In-select test f rows m (frontier_is_candidate s rows f ready))) in
    (h, In-take_of_head? n h _ pos first, below)

-- In a valid table with an event that is eligible, first of its aggregate and not locked, a claim takes
-- at least one event, with a sequence number that is not higher.
pub claim_progress :
    (s : Snapshot) (batch_size lease_ms : ℕ) (t : OutboxTable)
    → IsValid t
    → (e : OutboxEvent) → In e t.rows
    → is_ready s t.rows e ≡ true
    → (c : OutboxEvent) × In c (claim_pending_outbox_events s batch_size lease_ms t.rows).1
      × (c.sequence_number ≤ e.sequence_number)
claim_progress s batch_size lease_ms t v e m ready =
    let (f, front, ready', below) = frontier_complete s t.rows e m ready in
    let listed = (frontier_sound s t.rows f front).listed in
    let (h, picked, below') =
      frontier_candidate s (batch batch_size) t.rows f (ground arith) listed ready' in
    let (in_rows, holds) = candidates_sound s (batch batch_size) t.rows f h picked in
    let (back, stored) =
      claim_ids_complete s.now (lease lease_ms) (candidates s (batch batch_size) f t.rows) t.rows
        v.distinct (λ x k. (candidates_sound s (batch batch_size) t.rows f x k).0) h picked
        (ground arith) in
    (
      claimed s.now (lease lease_ms) h,
      rw (claim_claims s batch_size lease_ms t.rows f h front picked) back,
      omega arith,
    )
