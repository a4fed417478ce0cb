-- ===== src/Outbox/Exclusive.antt =====
-- Two claims of the outbox, one after the other.
use mern_chat_app.Common.{
  ℕ, ◌+◌, ◌*◌, ◌<◌, ◌≡◌, ◌≢◌, refl, true, In, arith, List, ◌⊎◌, inl, sym, ◌∙◌, dec_lt,
}
use mern_chat_app.Common.Sorting.{In-of_update}
use mern_chat_app.Outbox.{
  OutboxEvent, OutboxTable, Snapshot, claimed, is_eligible, is_unfinished, claim_ids,
  claim_pending_outbox_events, candidates,
}
use mern_chat_app.Outbox.Cases.{claim_cases, lease, batch}
use mern_chat_app.Outbox.Rows.{same_row, Distinct-of_Rises}
use mern_chat_app.Outbox.Order.{IsValid, claim-IsValid}
use mern_chat_app.Outbox.Claim.{IsAlone, IsFrontier, frontier_sound, candidates_sound, first_below}
use mern_chat_app.Outbox.Batch.{claim_sound, claim_contiguous, claim_ids_sound}

-- A row of the table after a claim is a row from before it, or such a row claimed.
pub claim_rows :
    (s : Snapshot) (batch_size lease_ms : ℕ) (rows : List OutboxEvent) (y : OutboxEvent)
    → In y (claim_pending_outbox_events s batch_size lease_ms rows).0
    → (x : OutboxEvent) × In x rows
      × ((y ≡ x) ⊎ ((is_unfinished x ≡ true) × (y ≡ claimed s.now (lease lease_ms) x)))
unfolding claim_ids
claim_rows s batch_size lease_ms rows y =
    claim_cases
      (λ r.
        In y r.0
        → (x : OutboxEvent) × In x rows
          × ((y ≡ x) ⊎ ((is_unfinished x ≡ true) × (y ≡ claimed s.now (lease lease_ms) x))))
      s batch_size lease_ms rows (λ m. (y, m, inl refl))
      (λ f e m.
        let (x, k, same) = In-of_update _ (claimed s.now (lease lease_ms)) y rows m in
        (x, k, ground arith))

-- The frontier behind a claimed event.
claim-IsFrontier :
    (s : Snapshot) (batch_size lease_ms : ℕ) (t : OutboxTable)
    → IsValid t
    → (c : OutboxEvent) → In c (claim_pending_outbox_events s batch_size lease_ms t.rows).1
    → (f : OutboxEvent) × IsFrontier s t.rows f × (f.aggregate_id ≡ c.aggregate_id)
claim-IsFrontier s batch_size lease_ms t v c =
    claim_cases
      (λ r.
        In c r.1 → (f : OutboxEvent) × IsFrontier s t.rows f × (f.aggregate_id ≡ c.aggregate_id))
      s batch_size lease_ms t.rows (λ m. elim m [ ])
      (λ f e m.
        let (x, picked, from) =
          claim_ids_sound s.now (lease lease_ms) (candidates s (batch batch_size) f t.rows) t.rows
            v.distinct (λ x k. (candidates_sound s (batch batch_size) t.rows f x k).0) c m in
        let (listed, holds) = candidates_sound s (batch batch_size) t.rows f x picked in
        (f, frontier_sound s t.rows f e, ground arith))

still_leased :
    (s s' : Snapshot) (lease_ms : ℕ) (x f : OutboxEvent)
    → s'.now < s.now + lease_ms * 1000
    → f ≡ claimed s.now lease_ms x
    → is_eligible s'.now f ≡ true
    → ⊥
still_leased s s' lease_ms x f early e h = ground arith

-- Two claims one after the other on a valid table, the first with no row locked by others: while the
-- lease of the first lasts, the second one takes no event of an aggregate that the first took from.
pub claim_exclusive :
    (s s' : Snapshot) (batch_size batch_size' lease_ms lease_ms' : ℕ) (t : OutboxTable)
    → IsValid t
    → IsAlone s
    → s'.now < s.now + lease lease_ms * 1000
    → (c d : OutboxEvent) → In c (claim_pending_outbox_events s batch_size lease_ms t.rows).1
    → In d
        (claim_pending_outbox_events s' batch_size' lease_ms'
          (claim_pending_outbox_events s batch_size lease_ms t.rows).0).1
    → d.aggregate_id ≢ c.aggregate_id
claim_exclusive s s' b b' l l' t v alone early c d m k same =
    let t' : OutboxTable = record t { rows = (claim_pending_outbox_events s b l t.rows).0 } in
    let v' = claim-IsValid s b l t v in
    let (x, listed, eligible, from, stored) = claim_sound s b l t v c m in
    let (f, front, agg) = claim-IsFrontier s' b' l' t' v' d k in
    let (y, listed', source) = claim_rows s b l t.rows f front.listed in
    let low = first_below t'.rows f c front.first stored (sym (agg ∙ same)) (ground arith) in
    elim (dec_lt f.sequence_number c.sequence_number) [
      | yes below ↦
          let taken = claim_sound s b l t v (claimed s.now (lease l) y) (
            claim_contiguous s b l t v alone c y m listed' (ground arith) (ground arith)
              (ground arith)) in
          still_leased s s' (lease l) y f early
            (same_row (λ z. z.sequence_number) f (claimed s.now (lease l) y) t'.rows
              (Distinct-of_Rises _ v'.rises) front.listed taken.4 (ground arith))
            front.eligible
      | no level ↦
          still_leased s s' (lease l) x f early
            (same_row (λ z. z.sequence_number) f c t'.rows (Distinct-of_Rises _ v'.rises)
                front.listed stored (omega arith)
              ∙ from)
            front.eligible
    ]
