-- ===== src/Messages/Rows.antt =====
-- The rows of a page, and their place against the cursor of the next one.
use mern_chat_app.Common.{
  ℕ, ◌≡◌, ◌≤◌, arith, true, false, some, take, reverse, map, head?, List, [], ◌∷◌, ◌++◌, In,
  Bool-cases, ◌⊎◌, inl, inr, subst, ap, Option, sym, ◌∙◌, In-append, refl, In-of_append, ◌==◌,
  In-of_take, In-map, In-of_map,
}
use mern_chat_app.Common.Sql.{select}
use mern_chat_app.Database.{MessageRow, Runtime}
use mern_chat_app.Messages.{
  find_messages_by_conversation, listed_rows, map_message, newest_first, is_listed, Position,
}
use mern_chat_app.Outbox.{clamp}
use mathlib.Core.List.{reverse-append, reverse-cons}
use mern_chat_app.Messages.Order.{kept_or_behind, last_is_behind, IsNewestFirst}
use mern_chat_app.Messages.Page.{page_lem}
use mern_chat_app.Common.Sorting.{In-of_select, In-of_order_by}

-- The first of a mapped list that is reversed.
head-reverse-map :
    {A B : Type 0} (f : A → B) (xs : List A) (m : B)
    → head? (reverse (map f xs)) ≡ some m
    → (kept : List A) × (last : A) × (xs ≡ kept ++ last ∷ []) × (f last ≡ m)
head-reverse-map {A} {B} f xs m h = elim (snoc-cases xs) [
  | inl e ↦ absurd (ground (arith, ap (λ t. head? (reverse (map f t))) e))
  | inr (kept, l, e) ↦
      let g : head? (reverse (map f xs)) ≡ some (f l) =
        ap (λ t. head? (reverse (map f t))) e
        ∙ ap (λ t. head? (reverse t)) (map_snoc kept l)
        ∙ ap head? (reverse-append (map f kept) (f l ∷ [])) in
      (kept, l, e, ground arith)
]
  where
    snoc-cases : (xs : List A) → (xs ≡ []) ⊎ ((kept : List A) × (l : A) × (xs ≡ kept ++ l ∷ []))
    snoc-cases [] = inl refl
    snoc-cases (x ∷ xs) = elim (snoc-cases xs) [
      | inl e ↦ inr ([], x, ap (λ t. x ∷ t) e)
      | inr (kept, l, e) ↦ inr (x ∷ kept, l, ap (λ t. x ∷ t) e)
    ]

    map_snoc : (kept : List A) (l : A) → map f (kept ++ l ∷ []) ≡ map f kept ++ f l ∷ []
    map_snoc [] l = refl
    map_snoc (x ∷ kept) l = ap (λ t. f x ∷ t) (map_snoc kept l)

In-of_reverse : (r : MessageRow) (xs : List MessageRow) → In r (reverse xs) → In r xs
In-of_reverse r [] m = elim m [ ]
In-of_reverse r (x ∷ xs) m =
    elim (In-of_append r (reverse xs) (x ∷ []) (subst (In r) (reverse-cons x xs) m)) [
      | inl h ↦ inr (In-of_reverse r xs h)
      | inr (inl e) ↦ inl e
      | inr (inr h) ↦ elim h [ ]
    ]

In-reverse : (r : MessageRow) (xs : List MessageRow) → In r xs → In r (reverse xs)
In-reverse r [] m = elim m [ ]
In-reverse r (x ∷ xs) (inl e) =
    subst (In r) (sym (reverse-cons x xs)) (In-append r (reverse xs) (x ∷ []) (inr (inl e)))
In-reverse r (x ∷ xs) (inr m) =
    subst (In r) (sym (reverse-cons x xs))
      (In-append r (reverse xs) (x ∷ []) (inl (In-reverse r xs m)))

-- The listing that a page is cut from holds rows of the table that the query asks for.
pub listed-In :
    (conversation_id : ℕ) (cursor : Option Position) (rows : List MessageRow) (r : MessageRow)
    → In r (listed_rows conversation_id cursor rows)
    → In r rows × (is_listed conversation_id cursor r ≡ true)
listed-In conversation_id cursor rows r m =
    In-of_select (is_listed conversation_id cursor) r rows
      (In-of_order_by newest_first r (select (is_listed conversation_id cursor) rows) m)

-- The ids of the rows are different.
abbrev pub IsKeyed : List MessageRow → Type 0
IsKeyed rows = (m n : MessageRow) → In m rows → In n rows → m.id ≡ n.id → m ≡ n

-- The cursor of the next page, from the first message of a page, which is its oldest.
abbrev pub behind : MessageRow → Option Position
behind oldest = some (oldest.created_at, oldest.id)

-- A row against the cursor behind the last of the first rows of a listing: it is one of these and not
-- behind the cursor, or none of these, and then behind the cursor unless its time lies between the
-- cursor's and the last row's. What `row_date` makes of a time is not after it.
pub place_lem :
    (rt : Runtime) (early : (t : ℕ) → rt.row_date t ≤ t) (conversation_id n : ℕ)
    (rows kept : List MessageRow) (last r : MessageRow)
    → IsNewestFirst rows
    → take n rows ≡ kept ++ last ∷ []
    → (r.id ≡ last.id → r ≡ last)
    → In r rows
    → (r.conversation_id == conversation_id) ≡ true
    → (In r (take n rows) × (is_listed conversation_id (behind (map_message rt last)) r ≡ false))
      ⊎ ((¬ In r (take n rows))
          × ((is_listed conversation_id (behind (map_message rt last)) r ≡ true)
              ⊎ ((is_listed conversation_id (behind (map_message rt last)) r ≡ false)
                  × (rt.row_date last.created_at ≤ r.created_at)
                  × (r.created_at ≤ last.created_at))))
place_lem rt early conversation_id n rows kept last r o e unique m c =
    elim (kept_or_behind n rows kept last r o e m) [
      | inl h ↦ inl (h, before (last_is_behind n rows kept last r o e h))
      | inr h ↦ elim (Bool-cases (r.id == last.id)) [
        | inl i ↦
            let same : r ≡ last = unique (ground arith) in
            let k : In r (take n rows) =
              subst (In r) (sym e) (In-append r kept (last ∷ []) (inr (inl same))) in
            inl (k, before (last_is_behind n rows kept last r o e k))
        | inr i ↦ inr (
          (λ k. differs h i (last_is_behind n rows kept last r o e k)),
          missed h (Bool-cases (is_listed conversation_id (behind (map_message rt last)) r)),
        )
      ]
    ]
  where
    before :
        newest_first r last ≡ true
        → is_listed conversation_id (behind (map_message rt last)) r ≡ false
    before h = ground (arith, early last.created_at)

    differs :
        newest_first last r ≡ true → (r.id == last.id) ≡ false → newest_first r last ≡ true → ⊥
    differs h i k = ground arith

    missed :
        newest_first last r ≡ true
        → (is_listed conversation_id (behind (map_message rt last)) r ≡ true)
          ⊎ (is_listed conversation_id (behind (map_message rt last)) r ≡ false)
        → (is_listed conversation_id (behind (map_message rt last)) r ≡ true)
          ⊎ ((is_listed conversation_id (behind (map_message rt last)) r ≡ false)
              × (rt.row_date last.created_at ≤ r.created_at)
              × (r.created_at ≤ last.created_at))
    missed h (inl k) = inl k
    missed h (inr k) = inr (k, ground arith, ground arith)

module _ (rt : Runtime) (conversation_id limit : ℕ) where
  -- The rows of a page, newest first, and the row of its oldest message.
  abbrev pub page_rows : Option Position → List MessageRow → List MessageRow
  page_rows cursor rows = take (clamp 1 100 limit) (listed_rows conversation_id cursor rows)

  pub In-page :
      (cursor : Option Position) (rows : List MessageRow) (r : MessageRow)
      → In r (page_rows cursor rows)
      → In
          (map_message rt r)
          (find_messages_by_conversation rt conversation_id limit cursor rows).messages
  In-page cursor rows r m =
      subst (In (map_message rt r)) (sym (page_lem rt conversation_id limit cursor rows).0) (
        In-reverse (map_message rt r) (map (map_message rt) (page_rows cursor rows))
          (In-map (map_message rt) r (page_rows cursor rows) m))

  pub In-of_page :
      (cursor : Option Position) (rows : List MessageRow) (r : MessageRow)
      → IsKeyed rows
      → In r rows
      → In
          (map_message rt r)
          (find_messages_by_conversation rt conversation_id limit cursor rows).messages
      → In r (page_rows cursor rows)
  In-of_page cursor rows r unique in_rows m =
      let shown =
        subst (In (map_message rt r)) (page_lem rt conversation_id limit cursor rows).0 m in
      let (x, k, e) =
        In-of_map (map_message rt) (map_message rt r) (page_rows cursor rows)
          (In-of_reverse (map_message rt r) (map (map_message rt) (page_rows cursor rows)) shown) in
      let listed =
        listed-In conversation_id cursor rows x
          (In-of_take x (clamp 1 100 limit) (listed_rows conversation_id cursor rows) k) in
      subst (λ y. In y (page_rows cursor rows))
        (unique x r listed.0 in_rows (sym (ap (λ y. y.id) e))) k

  -- The row of a page's oldest message.
  pub oldest_row :
      (cursor : Option Position) (rows : List MessageRow) (oldest : MessageRow)
      → head? (find_messages_by_conversation rt conversation_id limit cursor rows).messages
        ≡ some oldest
      → (kept : List MessageRow) × (last : MessageRow) × (page_rows cursor rows ≡ kept ++ last ∷ [])
        × (map_message rt last ≡ oldest)
  oldest_row cursor rows oldest h =
      head-reverse-map (map_message rt) (page_rows cursor rows) oldest
        (ap head? (sym (page_lem rt conversation_id limit cursor rows).0) ∙ h)

  pub last-In :
      (cursor : Option Position) (rows kept : List MessageRow) (last : MessageRow)
      → page_rows cursor rows ≡ kept ++ last ∷ []
      → In last rows × (is_listed conversation_id cursor last ≡ true)
  last-In cursor rows kept last e = listed-In conversation_id cursor rows last (
      In-of_take last (clamp 1 100 limit) (listed_rows conversation_id cursor rows)
        (subst (In last) (sym e) (In-append last kept (last ∷ []) (inr (inl refl)))))
