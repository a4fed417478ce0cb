-- ===== src/Relay/Drain.antt =====
-- A poll while the database and Kafka answer: how many rounds the outbox takes.
use mern_chat_app.Common.{
  ℕ, zero, suc, ◌≡◌, ◌≤◌, refl, Text, List, [], ◌∷◌, true, false, any, In, inl, inr, arith,
  Bool-cases, ◌==◌, map, length, ◌∙◌, if◌then◌else◌, sym, subst, ◌⊎◌, In-of_any, In-not_any,
}
use mern_chat_app.Outbox.{
  OutboxEvent, is_unfinished, is_eligible, mark_outbox_events_published,
  claim_pending_outbox_events, claim_ids,
}
use mern_chat_app.Outbox.Order.{IsValid, claim-IsValid, apply-IsValid, apply, publish}
use mern_chat_app.Outbox.Progress.{claim_progress}
use mern_chat_app.Outbox.Cases.{lease}
use mern_chat_app.Relay.{Turn, Settings, RelayWorld, run_outbox_relay_once, poll_batches}
use mern_chat_app.Relay.Once.{batch_of, claimed_world, marked}
use mern_chat_app.Common.Sorting.{In-of_update}
use mern_chat_app.Outbox.Exclusive.{claim_rows}
use mern_chat_app.Relay.Answered.{round_lem, marks_any, Drops, mark_any, claim-Drops, claim_form}
use mern_chat_app.Relay.Unfinished.{unfinished, unfinished_none, first_row, none_unfinished}

Drops-of_claim :
    (now lease_ms at : ℕ) (is : List ℕ) (rows : List OutboxEvent) (c : OutboxEvent)
    (r : List OutboxEvent × List OutboxEvent)
    → r ≡ claim_ids now lease_ms is rows
    → In c r.1
    → Drops rows (mark_outbox_events_published at (map (λ y. y.id) r.1) r.0)
Drops-of_claim now lease_ms at is rows c r e m =
    subst
      (λ z. Drops rows (mark_outbox_events_published at (map (λ (y : OutboxEvent). y.id) z.1) z.0))
      (sym e) (claim-Drops now lease_ms at is rows c (subst (λ z. In c z.1) e m))

nonempty :
    (events : List OutboxEvent) (c : OutboxEvent) → In c events → (length events == 0) ≡ false
nonempty [] c m = elim m [ ]
nonempty (e ∷ events) c m = ground arith

no_source :
    {P : Type 0} (x z : OutboxEvent)
    → is_unfinished x ≡ false
    → is_unfinished z ≡ true
    → ¬ ((z ≡ x) ⊎ ((is_unfinished x ≡ true) × P))
no_source x z h k (inl e) = ground arith
no_source x z h k (inr e) = ground arith

module _ (turn : Turn) (settings : Settings) (next : ℕ) (claims : turn.claim_answers ≡ true)
    (accepts : (t : Text) → turn.accepts t ≡ true) (marks : turn.mark_answers ≡ true)
    (w : RelayWorld) (v : IsValid (record { next_sequence = next; rows = w.rows })) where
  round-IsValid :
      IsValid
        (record { next_sequence = next; rows = (run_outbox_relay_once turn settings w).1.rows })
  unfolding apply
  round-IsValid =
      subst (λ r. IsValid (record { next_sequence = next; rows = r }))
        (sym (round_lem turn settings claims accepts marks w).1)
        (apply-IsValid
          (record { next_sequence = next; rows = (claimed_world turn settings w).rows })
          (publish turn.marked_at (map (λ x. x.id) (batch_of turn settings w)))
          (claim-IsValid turn.snapshot settings.batch_size settings.lease_ms
            (record { next_sequence = next; rows = w.rows }) v))

  -- A round with an unfinished row, all of which are eligible and none of which is locked.
  round-Drops :
      ((e : OutboxEvent)
        → In e w.rows
        → is_unfinished e ≡ true
        → is_eligible turn.snapshot.now e ≡ true)
      → ((i : ℕ) → turn.snapshot.is_locked i ≡ false)
      → any is_unfinished w.rows ≡ true
      → ((length (batch_of turn settings w) == 0) ≡ false)
        × Drops w.rows (run_outbox_relay_once turn settings w).1.rows
  round-Drops eligible unlocked some_ =
      let (e, m, u, first) = first_row w.rows v.rises some_ in
      let (c, k, below) =
        claim_progress turn.snapshot settings.batch_size settings.lease_ms
          (record { next_sequence = next; rows = w.rows }) v e m
          (rw (eligible e m u, first, unlocked e.id) refl) in
      let (is, form) = claim_form turn settings claims accepts marks w c k in
      (
        nonempty (batch_of turn settings w) c k,
        subst (Drops w.rows) (sym (round_lem turn settings claims accepts marks w).1) (
            Drops-of_claim turn.snapshot.now (lease settings.lease_ms) turn.marked_at is w.rows c
              (claim_pending_outbox_events turn.snapshot settings.batch_size settings.lease_ms
                w.rows)
              form k),
      )

  -- A round without one.
  round_none :
      any is_unfinished w.rows ≡ false
      → any is_unfinished (run_outbox_relay_once turn settings w).1.rows ≡ false
  round_none none_ =
      elim (Bool-cases (any is_unfinished (run_outbox_relay_once turn settings w).1.rows)) [
        | inr h ↦ h
        | inl h ↦
            let events = batch_of turn settings w in
            let (y, m, u) =
              In-of_any is_unfinished (run_outbox_relay_once turn settings w).1.rows h in
            let (z, k, e) =
              In-of_update (marks_any events) (marked turn.marked_at) y
                (claimed_world turn settings w).rows
                (subst (λ r. In y r)
                  ((round_lem turn settings claims accepts marks w).1
                    ∙ mark_any turn.marked_at (map (λ (x : OutboxEvent). x.id) events)
                        (claimed_world turn settings w).rows)
                  m) in
            elim (Bool-cases (marks_any events z)) [
              | inl a ↦ absurd (ground arith)
              | inr a ↦
                  let (x, l, source) =
                    claim_rows turn.snapshot settings.batch_size settings.lease_ms w.rows z k in
                  absurd (
                    no_source x z (In-not_any is_unfinished x w.rows none_ l) (ground arith) source)
            ]
      ]

-- On a valid table whose unfinished rows are all eligible whenever a round claims, with no row locked by
-- others, and with a database and a Kafka that answer and accept everything: a poll of as many rounds as
-- there are unfinished rows leaves none of them pending or processing, whatever the batch size (`poll` is
-- the case of 100 rounds).
pub poll_drains :
    (turns : ℕ → Turn) (settings : Settings) (next n : ℕ) (w : RelayWorld)
    → ((i : ℕ) → (turns i).claim_answers ≡ true)
    → ((i : ℕ) (t : Text) → (turns i).accepts t ≡ true)
    → ((i : ℕ) → (turns i).mark_answers ≡ true)
    → ((i id : ℕ) → (turns i).snapshot.is_locked id ≡ false)
    → IsValid (record { next_sequence = next; rows = w.rows })
    → ((i : ℕ) (e : OutboxEvent)
        → In e w.rows
        → is_unfinished e ≡ true
        → is_eligible (turns i).snapshot.now e ≡ true)
    → unfinished w.rows ≤ n
    → any is_unfinished (poll_batches n turns settings w).rows ≡ false
unfolding poll_batches
poll_drains turns settings next zero w claims accepts marks unlocked v eligible few =
    unfinished_none w.rows few
poll_drains turns settings next (suc n) w claims accepts marks unlocked v eligible few =
    let t = turns n in
    let w' = (run_outbox_relay_once t settings w).1 in
    let v' = round-IsValid t settings next (claims n) (accepts n) (marks n) w v in
    let ret = (round_lem t settings (claims n) (accepts n) (marks n) w).0 in
    elim (Bool-cases (any is_unfinished w.rows)) [
      | inl some_ ↦
          let (more, (fewer, source)) =
            round-Drops t settings next (claims n) (accepts n) (marks n) w v (eligible n)
              (unlocked n) some_ in
          rw (poll_batches, ret, more, if◌then◌else◌)
            (poll_drains turns settings next n w' claims accepts marks unlocked v'
              (λ i e m u. eligible i e (source e m u) u) (omega arith))
      | inr none_ ↦
          let after = round_none t settings next (claims n) (accepts n) (marks n) w v none_ in
          elim (Bool-cases (length (batch_of t settings w) == 0)) [
            | inl z ↦ rw (poll_batches, ret, z, if◌then◌else◌) after
            | inr z ↦
                rw (poll_batches, ret, z, if◌then◌else◌)
                  (poll_drains turns settings next n w' claims accepts marks unlocked v'
                    (λ i e m u. absurd (ground (arith, In-not_any is_unfinished e w'.rows after m)))
                    (ground (arith, none_unfinished w'.rows after)))
          ]
    ]
