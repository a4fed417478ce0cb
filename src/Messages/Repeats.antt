-- ===== src/Messages/Repeats.antt =====
-- The pages of a conversation that are read one behind the other.
use mern_chat_app.Common.{
  ℕ, ◌≡◌, ◌≤◌, arith, true, false, some, none, head?, List, In, Option, In-of_take,
}
use mern_chat_app.Common.Sql.{select}
use mern_chat_app.Database.{MessageRow, Runtime}
use mern_chat_app.Messages.{
  find_messages_by_conversation, listed_rows, map_message, newest_first, is_listed, Position,
}
use mern_chat_app.Outbox.{clamp}
use mern_chat_app.Messages.Order.{last_is_behind, order-IsNewestFirst}
use mern_chat_app.Messages.Rows.{IsKeyed, behind, oldest_row, last-In, In-of_page, listed-In}

-- The cursors that are reached from a page's, each one behind a page of the table of its time.
pub data Reaches (rt : Runtime) (conversation_id limit : ℕ) (cursor : Option Position)
    : Option Position → Type 0 where
  here : Reaches rt conversation_id limit cursor cursor
  older :
      {d e : Option Position} (rows : List MessageRow) (oldest : MessageRow)
      → Reaches rt conversation_id limit cursor d
      → head? (find_messages_by_conversation rt conversation_id limit d rows).messages ≡ some oldest
      → e ≡ behind oldest
      → Reaches rt conversation_id limit cursor e

-- What `row_date` makes of a time of the table is not after it.
module _ (rt : Runtime) (early : (t : ℕ) → rt.row_date t ≤ t) (conversation_id limit : ℕ) where
  -- What a cursor leaves out, all that are reached from it leave out.
  unlisted_stays :
      (cursor d : Option Position) (r : MessageRow)
      → Reaches rt conversation_id limit cursor d
      → is_listed conversation_id cursor r ≡ false
      → is_listed conversation_id d r ≡ false
  unlisted_stays cursor d r here h = h
  unlisted_stays cursor d r (older {d = c} rows oldest before page same) h =
      let (kept, last, e, mapped) = oldest_row rt conversation_id limit c rows oldest page in
      let k = unlisted_stays cursor c r before h in
      let l = (last-In rt conversation_id limit c rows kept last e).1 in
      rw (same, ← mapped) (further c last k l)
    where
      further :
          (c : Option Position) (last : MessageRow)
          → is_listed conversation_id c r ≡ false
          → is_listed conversation_id c last ≡ true
          → is_listed conversation_id (behind (map_message rt last)) r ≡ false
      further none last k l = ground arith
      further (some (t, i)) last k l = ground (arith, early last.created_at)

  -- What a cursor leaves out is on none of the pages that are read from it on.
  unlisted_never_shown :
      (cursor d : Option Position) (later : List MessageRow) (r : MessageRow)
      → IsKeyed later
      → In r later
      → Reaches rt conversation_id limit cursor d
      → is_listed conversation_id cursor r ≡ false
      → ¬ In
          (map_message rt r)
          (find_messages_by_conversation rt conversation_id limit d later).messages
  unlisted_never_shown cursor d later r unique m reached out again =
      let k = listed-In conversation_id d later r (
        In-of_take r (clamp 1 100 limit) (listed_rows conversation_id d later)
          (In-of_page rt conversation_id limit d later r unique m again)) in
      cc (unlisted_stays cursor d r reached out, k.1)

  -- No message is shown twice: one that is on a page is on none of the pages that are read behind it,
  -- each with the place of the oldest message of the one before as its cursor, whatever other messages
  -- the table has by then. The ids of its rows are different, and `new Date(String(value))` makes no time
  -- later than the column's.
  pub pages_never_repeat :
      (cursor d : Option Position) (rows later : List MessageRow) (oldest r : MessageRow)
      → IsKeyed rows
      → IsKeyed later
      → In r rows
      → In r later
      → head? (find_messages_by_conversation rt conversation_id limit cursor rows).messages
        ≡ some oldest
      → In
          (map_message rt r)
          (find_messages_by_conversation rt conversation_id limit cursor rows).messages
      → Reaches rt conversation_id limit (behind oldest) d
      → ¬ In
          (map_message rt r)
          (find_messages_by_conversation rt conversation_id limit d later).messages
  pages_never_repeat cursor d rows later oldest r unique unique' m m' h shown reached again =
      let (kept, last, e, same) = oldest_row rt conversation_id limit cursor rows oldest h in
      let on = In-of_page rt conversation_id limit cursor rows r unique m shown in
      let out : is_listed conversation_id (behind oldest) r ≡ false = rw (← same) (
        leaves_out last (
          last_is_behind (clamp 1 100 limit) (listed_rows conversation_id cursor rows) kept last r
            (order-IsNewestFirst (select (is_listed conversation_id cursor) rows)) e on)) in
      unlisted_never_shown (behind oldest) d later r unique' m' reached out again
    where
      leaves_out :
          (last : MessageRow)
          → newest_first r last ≡ true
          → is_listed conversation_id (behind (map_message rt last)) r ≡ false
      leaves_out last n = ground (arith, early last.created_at)
