-- ===== src/Messages.antt =====
-- Backend/repositories/postgres/message.repository.ts, and the page cursor of
-- Backend/utils/messageCursor.ts.
pub mod Page
pub mod Order
pub mod Rows
pub mod Gaps
pub mod Repeats
pub mod CursorLaws
pub mod Tests
use mern_chat_app.Common.{
  ℕ, ◌+◌, Text, codes, text_eq, Bool, true, false, not, ◌&&◌, ◌||◌, Option, none, some, List, [],
  ◌∷◌, ◌++◌, map, reverse, ltb, leb, ◌==◌, if◌then◌else◌, any, take, head?, length,
}
use mern_chat_app.Common.Sql.{select, order_by}
use mern_chat_app.Database.{
  Db, MessageRow, Exec, Runtime, query, connect, pure, ◌>>=◌, ◌>>◌, random_uuid, cast_uuid,
}
use mern_chat_app.Errors.{Result, ok, err, pg}
use mern_chat_app.Js.{Js, num, str, obj, end, field, is_record, prop}
use mern_chat_app.Js.Uuid.{is_uuid}
use mern_chat_app.Outbox.{clamp}

-- `mapMessage`: the dates go through `new Date(String(value))`.
abbrev pub map_message : Runtime → MessageRow → MessageRow
map_message rt row = record row {
  created_at = rt.row_date row.created_at;
  updated_at = rt.row_date row.updated_at;
}

abbrev pub new_message : Runtime → ℕ → ℕ → ℕ → Text → MessageRow
new_message rt id conversation_id sender_id content = record {
  id = id;
  conversation_id = conversation_id;
  sender_id = sender_id;
  content = content;
  created_at = rt.now;
  updated_at = rt.now;
}

-- INSERT with the primary key and the two foreign keys of `messages`.
abbrev pub insert_message : Runtime → ℕ → ℕ → ℕ → Text → Db → Result (MessageRow × Db)
insert_message rt id conversation_id sender_id content db =
    if any (λ m. m.id == id) db.messages
    then err (pg (codes "23505"))
    else if any (λ c. c.id == conversation_id) db.conversations
        && any (λ u. u.id == sender_id) db.users
    then ok (
      new_message rt id conversation_id sender_id content,
      record db {
        messages = db.messages ++ new_message rt id conversation_id sender_id content ∷ [];
      },
    )
    else err (pg (codes "23503"))

abbrev mapped : Runtime → Result (MessageRow × Db) → Result (MessageRow × Db)
mapped rt (ok (m, db)) = ok (map_message rt m, db)
mapped rt (err e) = err e

unfoldable pub create_message_with_client : Runtime → ℕ → ℕ → Text → Text → Exec MessageRow
unfolding query
create_message_with_client rt id conversation_id sender_id content = query λ db.
    elim (cast_uuid rt sender_id) [
      | err e ↦ err e
      | ok u ↦ mapped rt (insert_message rt id conversation_id u content db)
    ]

-- `createMessage`, with `input.id ?? randomUUID()`.
unfoldable pub create_message : Runtime → Option ℕ → ℕ → Text → Text → Exec MessageRow
unfolding connect create_message_with_client random_uuid
create_message rt given conversation_id sender_id content = do
  connect
  id ← elim given [ none ↦ random_uuid rt | some i ↦ pure i ]
  create_message_with_client rt id conversation_id sender_id content

unfoldable pub find_message_by_id : Runtime → ℕ → Exec (Option MessageRow)
unfolding query
find_message_by_id rt id = query λ db. ok (
  elim (head? (select (λ m. m.id == id) db.messages)) [
    | none ↦ none
    | some m ↦ some (map_message rt m)
  ],
  db,
)

-- The order of `(created_at, id)`: `(s, i) < (t, j)`.
abbrev pub is_before : ℕ → ℕ → ℕ → ℕ → Bool
is_before s i t j = ltb s t || (s == t && ltb i j)

-- ORDER BY created_at DESC, id DESC: `m` may stand in front of `n`.
abbrev pub newest_first : MessageRow → MessageRow → Bool
newest_first m n = not (is_before m.created_at m.id n.created_at n.id)

-- The time and the id that a cursor stands for.
abbrev pub Position : Type 0
Position = ℕ × ℕ

abbrev pub is_behind : Option Position → MessageRow → Bool
is_behind none m = true
is_behind (some (t, i)) m = is_before m.created_at m.id t i

abbrev pub is_listed : ℕ → Option Position → MessageRow → Bool
is_listed conversation_id cursor m = m.conversation_id == conversation_id && is_behind cursor m

-- The rows of the query, before LIMIT.
abbrev pub listed_rows : ℕ → Option Position → List MessageRow → List MessageRow
listed_rows conversation_id cursor rows =
    order_by newest_first (select (is_listed conversation_id cursor) rows)

pub record MessagePage : Type 0 where
  pub messages : List MessageRow
  pub has_more : Bool

abbrev pub page_of : ℕ → List MessageRow → MessagePage
page_of bounded_limit rows =
    let has_more = ltb bounded_limit (length rows) in
    record {
      messages = reverse (if has_more then take bounded_limit rows else rows);
      has_more = has_more;
    }

-- `findMessagesByConversation` on the rows of the table.
unfoldable pub find_messages_by_conversation :
    Runtime → ℕ → ℕ → Option Position → List MessageRow → MessagePage
find_messages_by_conversation rt conversation_id limit cursor rows =
    let bounded_limit = clamp 1 100 limit in
    page_of bounded_limit
      (map (map_message rt) (take (bounded_limit + 1) (listed_rows conversation_id cursor rows)))

pub record MessageCursor : Type 0 where
  pub created_at : Text
  pub id : Text

-- What the cursor functions take from Node.js: base64url of the JSON of a value and back (`none` if
-- either step throws), and the milliseconds of a date text (`none` for an invalid date).
pub record CursorCodec : Type 0 where
  pub encode_json : Js → Text
  pub decode_json : Text → Option Js
  pub parse_date : Text → Option ℕ
  pub to_iso : ℕ → Text

abbrev cursor_version : ℕ
cursor_version = 2

-- The value that is encoded.
abbrev pub cursor_value : MessageCursor → Js
cursor_value c = obj (
    field (codes "v") (num cursor_version)
      (field (codes "createdAt") (str c.created_at) (field (codes "id") (str c.id) end)))

unfoldable pub encode_message_cursor : CursorCodec → MessageCursor → Text
encode_message_cursor k c = k.encode_json (cursor_value c)

-- The checks on the two texts of a parsed cursor.
abbrev pub checked_cursor : CursorCodec → Text → Text → Option MessageCursor
checked_cursor k created_at id = elim (k.parse_date created_at) [
  | none ↦ none
  | some t ↦
      if text_eq (k.to_iso t) created_at && is_uuid id
      then some (record { created_at = created_at; id = id })
      else none
]

abbrev pub text_of : Js → Option Text
text_of (str s) = some s
text_of _ = none

abbrev pub with_texts : {A : Type 0} → Js → Js → (Text → Text → Option A) → Option A
with_texts v w f = elim (text_of v) [
  | none ↦ none
  | some s ↦ elim (text_of w) [ none ↦ none | some t ↦ f s t ]
]

abbrev is_version : Js → Bool
is_version (num n) = n == cursor_version
is_version _ = false

abbrev parsed_cursor : CursorCodec → Js → Option MessageCursor
parsed_cursor k v =
    if is_record v && is_version (prop (codes "v") v)
    then with_texts (prop (codes "createdAt") v) (prop (codes "id") v) (checked_cursor k)
    else none

unfoldable pub decode_message_cursor : CursorCodec → Text → Option MessageCursor
decode_message_cursor k value =
    if length value == 0 || ltb 512 (length value)
    then none
    else elim (k.decode_json value) [ none ↦ none | some v ↦ parsed_cursor k v ]
