-- ===== src/Outbox/Cases.antt =====
-- The two outcomes of a claim: nothing is claimed, or the candidates behind a frontier are.
use mern_chat_app.Common.{
  ℕ, ◌≡◌, refl, inl, inr, none, some, List, [], ◌∷◌, map, Option-cases, In, ◌∙◌,
}
use mern_chat_app.Outbox.{
  OutboxEvent, Snapshot, frontier, candidates, clamp, claim_ids, claim_found,
  claim_pending_outbox_events,
}

-- The lease that is granted, and the number of events that are claimed at most.
abbrev pub lease : ℕ → ℕ
lease lease_ms = clamp 1_000 300_000 lease_ms

abbrev pub batch : ℕ → ℕ
batch batch_size = clamp 1 100 batch_size

claim_found_cases {ℓ} :
    (P : List OutboxEvent × List OutboxEvent → Type ℓ) (now lease_ms : ℕ)
    (found rows : List OutboxEvent)
    → P (rows, [])
    → P (claim_ids now (lease lease_ms) (map (λ e. e.id) found) rows)
    → P (claim_found now lease_ms found rows)
unfolding claim_found
claim_found_cases P now lease_ms [] rows nothing some_ = nothing
claim_found_cases P now lease_ms (e ∷ found) rows nothing some_ = some_

claim_none :
    (s : Snapshot) (batch_size lease_ms : ℕ) (rows : List OutboxEvent)
    → frontier s rows ≡ none
    → claim_pending_outbox_events s batch_size lease_ms rows ≡ (rows, [])
claim_none s batch_size lease_ms rows e =
    unfold claim_pending_outbox_events in rw (e, claim_pending_outbox_events) refl

claim_some :
    (s : Snapshot) (batch_size lease_ms : ℕ) (rows : List OutboxEvent) (f : OutboxEvent)
    → frontier s rows ≡ some f
    → claim_pending_outbox_events s batch_size lease_ms rows
      ≡ claim_found s.now lease_ms (candidates s (batch batch_size) f rows) rows
claim_some s batch_size lease_ms rows f e =
    unfold claim_pending_outbox_events in rw (e, claim_pending_outbox_events) refl

claim_found-In :
    (now lease_ms : ℕ) (h : OutboxEvent) (found rows : List OutboxEvent)
    → In h found
    → claim_found now lease_ms found rows
      ≡ claim_ids now (lease lease_ms) (map (λ e. e.id) found) rows
unfolding claim_found
claim_found-In now lease_ms h [] rows m = elim m [ ]
claim_found-In now lease_ms h (e ∷ found) rows m = refl

-- With a frontier and a candidate, the candidates are claimed.
pub claim_claims :
    (s : Snapshot) (batch_size lease_ms : ℕ) (rows : List OutboxEvent) (f h : OutboxEvent)
    → frontier s rows ≡ some f
    → In h (candidates s (batch batch_size) f rows)
    → claim_pending_outbox_events s batch_size lease_ms rows
      ≡ claim_ids s.now
          (lease lease_ms)
          (map (λ e. e.id) (candidates s (batch batch_size) f rows))
          rows
claim_claims s batch_size lease_ms rows f h e m =
    claim_some s batch_size lease_ms rows f e
    ∙ claim_found-In s.now lease_ms h (candidates s (batch batch_size) f rows) rows m

pub claim_cases {ℓ} :
    (P : List OutboxEvent × List OutboxEvent → Type ℓ) (s : Snapshot) (batch_size lease_ms : ℕ)
    (rows : List OutboxEvent)
    → P (rows, [])
    → ((f : OutboxEvent)
        → frontier s rows ≡ some f
        → P (
            claim_ids s.now
              (lease lease_ms)
              (map (λ e. e.id) (candidates s (batch batch_size) f rows))
              rows))
    → P (claim_pending_outbox_events s batch_size lease_ms rows)
claim_cases P s batch_size lease_ms rows nothing claims = elim (Option-cases (frontier s rows)) [
  | inl e ↦ rw (claim_none s batch_size lease_ms rows e) nothing
  | inr (f, e) ↦ rw (claim_some s batch_size lease_ms rows f e) (
      claim_found_cases P s.now lease_ms (candidates s (batch batch_size) f rows) rows nothing
        (claims f e))
]
