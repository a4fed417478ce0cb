-- ===== src/Outbox/Claim.antt =====
-- What `claimPendingOutboxEvents` claims.
use mern_chat_app.Common.{
  ℕ, ◌<◌, ◌≤◌, ◌≡◌, inl, inr, true, false, not, ◌&&◌, some, List, [], ◌∷◌, map, In, In-of_map,
  In-of_take, In-of_any, In-not_any, any, ltb, ◌==◌, ==_iff, arith, head?, Bool-cases, ◌∙◌, dec_lt,
}
use mern_chat_app.Common.Sorting.{
  In-select, In-of_select, In-of_order_by, In-order_by, order_by-IsOrdered, In-take_below,
}
use mern_chat_app.Outbox.{
  OutboxEvent, Snapshot, frontier, candidates, is_any_of, is_candidate, is_eligible,
  is_first_unfinished, is_unblocked, is_unfinished, select,
}
use mern_chat_app.Outbox.Rows.{same_row, Distinct}
use mern_chat_app.Outbox.Order.{sequences}

-- No other transaction holds a row locked.
abbrev pub IsAlone : Snapshot → Type 0
IsAlone s = (i : ℕ) → s.is_locked i ≡ false

-- What makes an event the frontier of its aggregate.
pub record IsFrontier (s : Snapshot) (rows : List OutboxEvent) (f : OutboxEvent) : Type 0 where
  pub listed : In f rows
  pub eligible : is_eligible s.now f ≡ true
  pub first : is_first_unfinished rows f ≡ true

In-of_head? : {A : Type 0} (a : A) (xs : List A) → head? xs ≡ some a → In a xs
In-of_head? a [] e = cc
In-of_head? a (x ∷ xs) e = inl (cc)

pub frontier_sound :
    (s : Snapshot) (rows : List OutboxEvent) (f : OutboxEvent)
    → frontier s rows ≡ some f
    → IsFrontier s rows f
unfolding frontier
frontier_sound s rows f e =
    let (listed, holds) = In-of_select _ f rows (In-of_order_by _ f _ (In-of_head? f _ e)) in
    record { listed = listed; eligible = ground arith; first = ground arith }

pub is_any_of-ids :
    (e : OutboxEvent) (found : List OutboxEvent)
    → is_any_of (map (λ x. x.id) found) e ≡ true
    → (x : OutboxEvent) × In x found × (e.id ≡ x.id)
is_any_of-ids e found h =
    let (i, m, same) = In-of_any (λ i. e.id == i) _ h in
    let (x, k, from) = In-of_map (λ x. x.id) i found m in (x, k, (==_iff e.id i).0 same ∙ from)

pub first_below :
    (rows : List OutboxEvent) (f z : OutboxEvent)
    → is_first_unfinished rows f ≡ true
    → In z rows
    → z.aggregate_id ≡ f.aggregate_id
    → is_unfinished z ≡ true
    → f.sequence_number ≤ z.sequence_number
first_below rows f z first m same u =
    let miss =
      In-not_any
        (λ x.
          x.aggregate_id == f.aggregate_id
          && ltb x.sequence_number f.sequence_number
          && is_unfinished x)
        z rows (ground arith) m in
    ground arith

unblocked_eligible :
    (now : ℕ) (rows : List OutboxEvent) (k : ℕ) (e z : OutboxEvent)
    → is_unblocked now rows k e ≡ true
    → In z rows
    → z.aggregate_id ≡ e.aggregate_id
    → k < z.sequence_number
    → z.sequence_number < e.sequence_number
    → is_unfinished z ≡ true
    → is_eligible now z ≡ true
unblocked_eligible now rows k e z open_ m same above below u =
    let miss =
      In-not_any
        (λ x.
          x.aggregate_id == e.aggregate_id
          && ltb k x.sequence_number
          && ltb x.sequence_number e.sequence_number
          && is_unfinished x
          && not (is_eligible now x))
        z rows (ground arith) m in
    ground arith

below_unblocked :
    (now : ℕ) (rows : List OutboxEvent) (k : ℕ) (e z : OutboxEvent)
    → is_unblocked now rows k e ≡ true
    → z.aggregate_id ≡ e.aggregate_id
    → z.sequence_number < e.sequence_number
    → is_unblocked now rows k z ≡ true
below_unblocked now rows k e z open_ same below =
    elim (Bool-cases (
      any
        (λ x.
          x.aggregate_id == z.aggregate_id
          && ltb k x.sequence_number
          && ltb x.sequence_number z.sequence_number
          && is_unfinished x
          && not (is_eligible now x))
        rows)) [
          | inl blocked ↦
              let (w, m, blocks) = In-of_any _ rows blocked in
              let opens = unblocked_eligible now rows k e w open_ m in ground (arith, opens)
          | inr free ↦ ground arith
        ]

module _ (s : Snapshot) (n : ℕ) (rows : List OutboxEvent) where
  pub candidates_sound :
      (f x : OutboxEvent)
      → In x (candidates s n f rows)
      → In x rows × (is_candidate s rows f.aggregate_id f.sequence_number x ≡ true)
  unfolding candidates
  candidates_sound f x m = In-of_select _ x rows (In-of_order_by _ x _ (In-of_take x n _ m))

  module _ (distinct : Distinct (sequences rows)) (alone : IsAlone s) {f : OutboxEvent}
      (front : IsFrontier s rows f) where
    -- Between the frontier and a candidate every unfinished event of the aggregate is eligible.
    below_eligible :
        (e z : OutboxEvent)
        → e.aggregate_id ≡ f.aggregate_id
        → is_unblocked s.now rows f.sequence_number e ≡ true
        → In z rows
        → z.aggregate_id ≡ e.aggregate_id
        → z.sequence_number < e.sequence_number
        → is_unfinished z ≡ true
        → is_eligible s.now z ≡ true
    below_eligible e z agg open_ m same below u =
        elim (dec_lt f.sequence_number z.sequence_number) [
          | yes above ↦
              unblocked_eligible s.now rows f.sequence_number e z open_ m same above below u
          | no level ↦
              rw
                (same_row (λ x. x.sequence_number) z f rows distinct m front.listed
                  (omega (arith, first_below rows f z front.first m (same ∙ agg) u)))
                front.eligible
        ]

    pub below_candidate :
        (e z : OutboxEvent)
        → In e (candidates s n f rows)
        → In z rows
        → z.aggregate_id ≡ e.aggregate_id
        → z.sequence_number < e.sequence_number
        → is_unfinished z ≡ true
        → In z (candidates s n f rows)
    unfolding candidates
    below_candidate e z chosen m same below u =
        let (listed, holds) = candidates_sound f e chosen in
        In-take_below (λ x. x.sequence_number) n z e _
          (order_by-IsOrdered {A = OutboxEvent} (λ x. x.sequence_number)
            (select (is_candidate s rows f.aggregate_id f.sequence_number) rows))
          (In-order_by _ z _ (
            In-select (is_candidate s rows f.aggregate_id f.sequence_number) z rows m (
              ground (
                arith,
                alone z.id,
                below_eligible e z (ground arith) (ground arith) m same below u,
                below_unblocked s.now rows f.sequence_number e z (ground arith) same below,
              ))))
          chosen below
