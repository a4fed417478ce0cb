-- ===== src/Messages/Order.antt =====
-- The order of a listing of messages: newest first, by time and id.
use mern_chat_app.Common.{
  ℕ, ◌≡◌, arith, true, false, take, List, [], ◌∷◌, ◌++◌, All, In, zero, suc, Bool-cases, ◌⊎◌, inl,
  inr, in-All, subst, All-take, sym, In-append, refl,
}
use mern_chat_app.Common.Sql.{insert_by, order_by}
use mern_chat_app.Database.{MessageRow}
use mern_chat_app.Messages.{newest_first}

abbrev pub IsNewestFirst : List MessageRow → Type 0
IsNewestFirst [] = Unit
IsNewestFirst (m ∷ rows) = All (λ n. newest_first m n ≡ true) rows × IsNewestFirst rows

newest_first_total : (m n : MessageRow) → newest_first m n ≡ false → newest_first n m ≡ true
newest_first_total m n h = ground arith

newest_first_trans :
    (l m n : MessageRow)
    → newest_first l m ≡ true
    → newest_first m n ≡ true
    → newest_first l n ≡ true
newest_first_trans l m n h k = ground arith

All-trans :
    (l m : MessageRow) (rows : List MessageRow)
    → newest_first l m ≡ true
    → All (λ n. newest_first m n ≡ true) rows
    → All (λ n. newest_first l n ≡ true) rows
All-trans l m [] h k = tt
All-trans l m (n ∷ rows) h k = (newest_first_trans l m n h k.0, All-trans l m rows h k.1)

All-insert :
    (l m : MessageRow) (rows : List MessageRow)
    → newest_first l m ≡ true
    → All (λ n. newest_first l n ≡ true) rows
    → All (λ n. newest_first l n ≡ true) (insert_by newest_first m rows)
All-insert l m [] h k = (h, tt)
All-insert l m (n ∷ rows) h k = elim (Bool-cases (newest_first m n)) [
  | inl e ↦ rw (e) (h, k)
  | inr e ↦ rw (e) (k.0, All-insert l m rows h k.1)
]

insert-IsNewestFirst :
    (m : MessageRow) (rows : List MessageRow)
    → IsNewestFirst rows
    → IsNewestFirst (insert_by newest_first m rows)
insert-IsNewestFirst m [] o = (tt, tt)
insert-IsNewestFirst m (n ∷ rows) o = elim (Bool-cases (newest_first m n)) [
  | inl e ↦ rw (e) ((e, All-trans m n rows e o.0), o)
  | inr e ↦
      rw (e) (All-insert n m rows (newest_first_total m n e) o.0, insert-IsNewestFirst m rows o.1)
]

pub order-IsNewestFirst : (rows : List MessageRow) → IsNewestFirst (order_by newest_first rows)
order-IsNewestFirst [] = tt
order-IsNewestFirst (m ∷ rows) =
    insert-IsNewestFirst m (order_by newest_first rows) (order-IsNewestFirst rows)

-- A row of an ordered listing is among the first ones, or behind the last of them.
pub kept_or_behind :
    (n : ℕ) (rows kept : List MessageRow) (last r : MessageRow)
    → IsNewestFirst rows
    → take n rows ≡ kept ++ last ∷ []
    → In r rows
    → In r (take n rows) ⊎ (newest_first last r ≡ true)
kept_or_behind zero rows [] last r o e m = absurd (ground arith)
kept_or_behind zero rows (k ∷ kept) last r o e m = absurd (ground arith)
kept_or_behind (suc n) [] kept last r o e m = elim m [ ]
kept_or_behind (suc n) (x ∷ rows) kept last r o e (inl same) = inl (inl same)
kept_or_behind (suc n) (x ∷ rows) [] last r o e (inr m) =
    let same : x ≡ last = ground arith in
    inr (
      subst (λ l. newest_first l r ≡ true) same
        (in-All (λ k. newest_first x k ≡ true) r rows o.0 m))
kept_or_behind (suc n) (x ∷ rows) (k ∷ kept) last r o e (inr m) =
    let rest : take n rows ≡ kept ++ last ∷ [] = ground arith in
    elim (kept_or_behind n rows kept last r o.1 rest m) [ inl h ↦ inl (inr h) | inr h ↦ inr h ]

-- The last of the first ones is behind none of them.
pub last_is_behind :
    (n : ℕ) (rows kept : List MessageRow) (last r : MessageRow)
    → IsNewestFirst rows
    → take n rows ≡ kept ++ last ∷ []
    → In r (take n rows)
    → newest_first r last ≡ true
last_is_behind n rows kept last r o e m =
    ordered kept (take n rows) (take-IsNewestFirst n rows o) e m
  where
    take-IsNewestFirst :
        (n : ℕ) (rows : List MessageRow) → IsNewestFirst rows → IsNewestFirst (take n rows)
    take-IsNewestFirst zero rows o = tt
    take-IsNewestFirst (suc n) [] o = tt
    take-IsNewestFirst (suc n) (x ∷ rows) o =
        (All-take (λ k. newest_first x k ≡ true) n rows o.0, take-IsNewestFirst n rows o.1)

    ordered :
        (kept xs : List MessageRow)
        → IsNewestFirst xs
        → xs ≡ kept ++ last ∷ []
        → In r xs
        → newest_first r last ≡ true
    ordered kept [] o e m = elim m [ ]
    ordered [] (x ∷ xs) o e (inl same) =
        let l : x ≡ last = ground arith in rw (same, l) (ground arith)
    ordered [] (x ∷ xs) o e (inr m) = let l : xs ≡ [] = ground arith in absurd (subst (In r) l m)
    ordered (k ∷ kept) (x ∷ xs) o e (inl same) =
        let rest : xs ≡ kept ++ last ∷ [] = ground arith in
        rw same (
          in-All (λ k. newest_first x k ≡ true) last xs o.0
            (subst (In last) (sym rest) (In-append last kept (last ∷ []) (inr (inl refl)))))
    ordered (k ∷ kept) (x ∷ xs) o e (inr m) =
        let rest : xs ≡ kept ++ last ∷ [] = ground arith in ordered kept xs o.1 rest m
