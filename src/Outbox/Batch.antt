-- ===== src/Outbox/Batch.antt =====
-- The batch that a claim returns, against the table before it.
use mern_chat_app.Common.{
  ℕ, ◌<◌, ◌≡◌, refl, ap, ◌∙◌, Bool, true, ◌&&◌, List, map, In, In-map, In-of_map, any_of_In, ◌==◌,
  ==_self, arith, subst,
}
use mern_chat_app.Common.Sql.{select, update}
use mern_chat_app.Common.Sorting.{
  In-select, In-of_select, In-update, In-of_order_by, In-order_by, by_key,
}
use mern_chat_app.Outbox.{
  OutboxEvent, OutboxTable, Snapshot, claimed, claim_ids, candidates, is_any_of, is_eligible,
  is_unfinished, claim_pending_outbox_events,
}
use mern_chat_app.Outbox.Cases.{claim_cases, lease, batch}
use mern_chat_app.Outbox.Rows.{same_row, Distinct, Distinct-of_Rises}
use mern_chat_app.Outbox.Order.{IsValid, ids}
use mern_chat_app.Outbox.Claim.{
  IsAlone, frontier_sound, candidates_sound, below_candidate, is_any_of-ids,
}

module _ (now lease_ms : ℕ) (found rows : List OutboxEvent) (distinct : Distinct (ids rows))
    (listed : (x : OutboxEvent) → In x found → In x rows) where
  -- Every returned row is a found one, claimed.
  pub claim_ids_sound :
      (c : OutboxEvent)
      → In c (claim_ids now lease_ms (map (λ x. x.id) found) rows).1
      → (x : OutboxEvent) × In x found × (c ≡ claimed now lease_ms x)
  unfolding claim_ids
  claim_ids_sound c m =
      let (y, k, e) = In-of_map (claimed now lease_ms) c (select picks rows) (
        In-of_order_by (by_key {A = OutboxEvent} (λ z. z.sequence_number)) c
          (map (claimed now lease_ms) (select picks rows)) m) in
      let (in_rows, picked) = In-of_select picks y rows k in
      let (x, chosen, same) = is_any_of-ids y found (ground arith) in
      (
        x,
        chosen,
        e
            ∙ ap (claimed now lease_ms)
                (same_row (λ z. z.id) y x rows distinct in_rows (listed x chosen) same),
      )
    where
      picks : OutboxEvent → Bool
      picks e = is_any_of (map (λ x. x.id) found) e && is_unfinished e

  -- Every found row that is unfinished is claimed: it is returned, and it is so in the table.
  pub claim_ids_complete :
      (x : OutboxEvent)
      → In x found
      → is_unfinished x ≡ true
      → In (claimed now lease_ms x) (claim_ids now lease_ms (map (λ y. y.id) found) rows).1
        × In (claimed now lease_ms x) (claim_ids now lease_ms (map (λ y. y.id) found) rows).0
  unfolding claim_ids
  claim_ids_complete x m u = (
    In-order_by _ (claimed now lease_ms x) _
        (In-map (claimed now lease_ms) x _ (In-select _ x rows (listed x m) (rw (picked, u) refl))),
    subst (λ y. In y (update chosen (claimed now lease_ms) rows)) (rw (picked, u) refl)
        (In-update chosen (claimed now lease_ms) x rows (listed x m)),
  )
    where
      chosen : OutboxEvent → Bool
      chosen e = is_any_of (map (λ y. y.id) found) e && is_unfinished e

      picked : is_any_of (map (λ y. y.id) found) x ≡ true
      picked = any_of_In (λ i. x.id == i) x.id _ (In-map (λ y. y.id) x found m) (==_self x.id)

module _ (s : Snapshot) (batch_size lease_ms : ℕ) (t : OutboxTable) (v : IsValid t) where
  private_found :
      (f x : OutboxEvent) → In x (candidates s (batch batch_size) f t.rows) → In x t.rows
  private_found f x m = (candidates_sound s (batch batch_size) t.rows f x m).0

  pub claim_sound :
      (c : OutboxEvent)
      → In c (claim_pending_outbox_events s batch_size lease_ms t.rows).1
      → (x : OutboxEvent) × In x t.rows
        × (is_eligible s.now x ≡ true)
        × (c ≡ claimed s.now (lease lease_ms) x)
        × In c (claim_pending_outbox_events s batch_size lease_ms t.rows).0
  claim_sound c =
      claim_cases
        (λ r.
          In c r.1
          → (x : OutboxEvent) × In x t.rows
            × (is_eligible s.now x ≡ true)
            × (c ≡ claimed s.now (lease lease_ms) x)
            × In c r.0)
        s batch_size lease_ms t.rows (λ m. elim m [ ])
        (λ f e m.
          let found = candidates s (batch batch_size) f t.rows in
          let (x, chosen, same) =
            claim_ids_sound s.now (lease lease_ms) found t.rows v.distinct (private_found f) c m in
          let (listed, holds) = candidates_sound s (batch batch_size) t.rows f x chosen in
          let (back, stored) =
            claim_ids_complete s.now (lease lease_ms) found t.rows v.distinct (private_found f) x
              chosen (ground arith) in
          (x, listed, ground arith, same, rw same stored))

  -- If no row is locked by another transaction, a claimed batch has no gap: with an event, every
  -- unfinished event of its aggregate with a lower sequence number is in the batch too, claimed.
  pub claim_contiguous :
      IsAlone s
      → (c x : OutboxEvent) → In c (claim_pending_outbox_events s batch_size lease_ms t.rows).1
      → In x t.rows
      → x.aggregate_id ≡ c.aggregate_id
      → x.sequence_number < c.sequence_number
      → is_unfinished x ≡ true
      → In
          (claimed s.now (lease lease_ms) x)
          (claim_pending_outbox_events s batch_size lease_ms t.rows).1
  claim_contiguous alone c x chosen m same below u =
      claim_cases (λ r. In c r.1 → In (claimed s.now (lease lease_ms) x) r.1) s batch_size lease_ms
        t.rows (λ m. elim m [ ])
        (λ f e k.
          let found = candidates s (batch batch_size) f t.rows in
          let (y, picked, from) =
            claim_ids_sound s.now (lease lease_ms) found t.rows v.distinct (private_found f) c k in
          (claim_ids_complete s.now (lease lease_ms) found t.rows v.distinct (private_found f) x
            (below_candidate s (batch batch_size) t.rows (Distinct-of_Rises _ v.rises) alone
              (frontier_sound s t.rows f e) y x picked m (ground arith) (ground arith) u)
            u).0)
        chosen
