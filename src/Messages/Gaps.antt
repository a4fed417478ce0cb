-- ===== src/Messages/Gaps.antt =====
-- From one page of a conversation to the next.
use mern_chat_app.Common.{
  ℕ, ◌≡◌, ◌≤◌, arith, true, false, some, head?, List, In, ◌⊎◌, inl, inr, Option, &&_parts,
}
use mern_chat_app.Common.Sql.{select}
use mern_chat_app.Database.{MessageRow, Runtime}
use mern_chat_app.Messages.{
  find_messages_by_conversation, listed_rows, map_message, newest_first, is_listed, Position,
}
use mern_chat_app.Outbox.{clamp}
use mern_chat_app.Messages.Order.{order-IsNewestFirst}
use mern_chat_app.Common.Sorting.{In-order_by, In-select}
use mern_chat_app.Messages.Rows.{
  IsKeyed, behind, oldest_row, In-of_page, place_lem, last-In, In-page,
}

-- What `row_date` makes of a time of the table is not after it.
module _ (rt : Runtime) (early : (t : ℕ) → rt.row_date t ≤ t) (conversation_id limit : ℕ) where
  -- From one page to the next, with the place of a page's first message (its oldest) as the next
  -- cursor: a message that was listed for the page is on it and is not listed for the next one, or is
  -- not on it and is listed for the next one, or it is skipped: not on it, not listed for the next one,
  -- and then `new Date(String(value))` makes the same time of its column as of the oldest one's. The ids
  -- of the rows are different, and `new Date(String(value))` rounds a time down to the last one of those
  -- that it makes.
  pub pages_continue :
      (whole : (s t : ℕ) → rt.row_date s ≤ t → rt.row_date s ≤ rt.row_date t)
      (cursor : Option Position) (rows : List MessageRow) (oldest r : MessageRow)
      → IsKeyed rows
      → head? (find_messages_by_conversation rt conversation_id limit cursor rows).messages
        ≡ some oldest
      → In r rows
      → is_listed conversation_id cursor r ≡ true
      → (In
            (map_message rt r)
            (find_messages_by_conversation rt conversation_id limit cursor rows).messages
          × (is_listed conversation_id (behind oldest) r ≡ false))
        ⊎ ((¬ In
              (map_message rt r)
              (find_messages_by_conversation rt conversation_id limit cursor rows).messages)
            × ((is_listed conversation_id (behind oldest) r ≡ true)
                ⊎ ((is_listed conversation_id (behind oldest) r ≡ false)
                    × (rt.row_date r.created_at ≡ oldest.created_at))))
  pages_continue whole cursor rows oldest r unique h m listed =
      let (kept, last, e, same) = oldest_row rt conversation_id limit cursor rows oldest h in
      let listing = listed_rows conversation_id cursor rows in
      let shown = In-of_page rt conversation_id limit cursor rows r unique m in
      let r_in =
        In-order_by newest_first r (select (is_listed conversation_id cursor) rows)
          (In-select (is_listed conversation_id cursor) r rows m listed) in
      rw (← same)
        elim (place_lem rt early conversation_id (clamp 1 100 limit) listing kept last r
          (order-IsNewestFirst (select (is_listed conversation_id cursor) rows)) e
          (unique r last m (last-In rt conversation_id limit cursor rows kept last e).0) r_in
          (&&_parts _ _ listed).0) [
            | inl (k, f) ↦ inl (In-page rt conversation_id limit cursor rows r k, f)
            | inr (k, inl f) ↦ inr (λ g. k (shown g), inl f)
            | inr (k, inr (f, low, high)) ↦ inr (
              (λ g. k (shown g)),
              inr (
                f,
                omega (
                  arith,
                  whole r.created_at last.created_at (omega (arith, early r.created_at, high)),
                  whole last.created_at r.created_at low,
                ),
              ),
            )
          ]
