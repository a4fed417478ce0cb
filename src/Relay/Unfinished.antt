-- ===== src/Relay/Unfinished.antt =====
-- The number of unfinished rows of the outbox under two updates in a row.
use mern_chat_app.Common.{
  ℕ, suc, ◌≡◌, ◌≤◌, ◌<◌, refl, List, [], ◌∷◌, Bool, true, false, any, In, inl, inr, arith,
  Bool-cases, ◌&&◌, ◌==◌, ltb, if◌then◌else◌, All, subst,
}
use mern_chat_app.Common.Sql.{update}
use mern_chat_app.Outbox.{OutboxEvent, is_unfinished, is_first_unfinished}
use mern_chat_app.Outbox.Order.{sequences}
use mern_chat_app.Outbox.Rows.{Rises}
use mern_chat_app.Common.Sorting.{In-of_update}

-- The events that are neither published nor dead-lettered.
abbrev pub unfinished : List OutboxEvent → ℕ
unfinished [] = 0
unfinished (e ∷ rows) = let rest = unfinished rows in if is_unfinished e then suc rest else rest

pub unfinished_none :
    (rows : List OutboxEvent) → unfinished rows ≤ 0 → any is_unfinished rows ≡ false
unfinished_none [] h = refl
unfinished_none (e ∷ rows) h = ground (arith, unfinished_none rows)

pub none_unfinished :
    (rows : List OutboxEvent) → any is_unfinished rows ≡ false → unfinished rows ≡ 0
none_unfinished [] h = refl
none_unfinished (e ∷ rows) h = ground (arith, none_unfinished rows)

-- The first unfinished row of the table is the first of its aggregate.
pub later_rows :
    (e : OutboxEvent) (rows : List OutboxEvent)
    → All (λ k. e.sequence_number < k) (sequences rows)
    → any
        (λ x.
          x.aggregate_id == e.aggregate_id
          && ltb x.sequence_number e.sequence_number
          && is_unfinished x)
        rows
      ≡ false
later_rows e [] h = refl
later_rows e (x ∷ rows) h = ground (arith, later_rows e rows h.1, h.0)

pub first_row :
    (rows : List OutboxEvent)
    → Rises (sequences rows)
    → any is_unfinished rows ≡ true
    → (e : OutboxEvent) × In e rows × (is_unfinished e ≡ true) × (is_first_unfinished rows e ≡ true)
first_row [] r h = absurd (ground arith)
first_row (x ∷ rows) r h = elim (Bool-cases (is_unfinished x)) [
  | inl u ↦ (x, inl refl, u, ground (arith, later_rows x rows r.0))
  | inr u ↦ let (e, m, k, f) = first_row rows r.1 (ground arith) in (e, inr m, k, ground arith)
]

-- Two updates in a row, the second of which hits what the first one changed and finishes rows.
module _ (p q : OutboxEvent → Bool) (f g : OutboxEvent → OutboxEvent)
    (finishes : (x : OutboxEvent) → is_unfinished (g x) ≡ false) where
  pub updates_le :
      (rows : List OutboxEvent)
      → ((x : OutboxEvent) → In x rows → p x ≡ true → q (f x) ≡ true)
      → unfinished (update q g (update p f rows)) ≤ unfinished rows
  updates_le [] hits = omega arith
  updates_le (x ∷ rows) hits = ground (
    arith,
    updates_le rows (λ y m. hits y (inr m)),
    hits x (inl refl),
    finishes x,
    finishes (f x),
  )

  pub updates_lt :
      (rows : List OutboxEvent) (e : OutboxEvent)
      → ((x : OutboxEvent) → In x rows → p x ≡ true → q (f x) ≡ true)
      → In e rows
      → p e ≡ true
      → is_unfinished e ≡ true
      → unfinished (update q g (update p f rows)) < unfinished rows
  updates_lt [] e hits m h u = elim m [ ]
  updates_lt (x ∷ rows) e hits (inl same) h u = ground (
    arith,
    updates_le rows (λ y k. hits y (inr k)),
    hits x (inl refl),
    finishes x,
    finishes (f x),
  )
  updates_lt (x ∷ rows) e hits (inr m) h u = ground (
    arith,
    updates_lt rows e (λ y k. hits y (inr k)) m h u,
    hits x (inl refl),
    finishes x,
    finishes (f x),
  )

  pub updates_source :
      (rows : List OutboxEvent) (y : OutboxEvent)
      → ((x : OutboxEvent) → In x rows → p x ≡ true → q (f x) ≡ true)
      → In y (update q g (update p f rows))
      → is_unfinished y ≡ true
      → In y rows
  updates_source rows y hits m u =
      let (z, k, e) = In-of_update q g y (update p f rows) m in
      let (x, l, d) = In-of_update p f z rows k in
      elim (Bool-cases (q z)) [
        | inl a ↦ absurd (ground (arith, finishes z))
        | inr a ↦ elim (Bool-cases (p x)) [
          | inl b ↦ absurd (ground (arith, hits x l b))
          | inr b ↦ subst (λ v. In v rows) (ground arith) l
        ]
      ]
