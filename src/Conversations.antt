-- ===== src/Conversations.antt =====
-- Backend/repositories/postgres/conversation.repository.ts, over the tables `conversations` and
-- `conversation_members` with their constraints.
pub mod Pairs
pub mod Creation
pub mod Tests
use mern_chat_app.Common.{
  ℕ, Text, codes, text_lt, ltb, ◌==◌, ◌&&◌, ◌||◌, not, any, head?, if◌then◌else◌, Bool, Option,
  ◌++◌, List, ◌∷◌, none, some, length, [], map,
}
use mern_chat_app.Common.Sql.{select, order_by}
use mern_chat_app.Database.{
  World, Db, Conversation, Member, Exec, Runtime, query, connect, transaction, pure, throw,
  random_uuid, cast_uuid, ◌>>=◌, ◌>>◌,
}
use mern_chat_app.Errors.{Result, ok, err, pg, plain}
use mern_chat_app.Common.Sorting.{by_key}

unfoldable pub canonicalize_member_pair : Text → Text → Text × Text
canonicalize_member_pair user_a user_b =
    if text_lt user_a user_b then (user_a, user_b) else (user_b, user_a)

abbrev pub is_pair : ℕ → ℕ → Conversation → Bool
is_pair a b c = c.member_a_id == a && c.member_b_id == b

-- SELECT of the conversation of a pair.
abbrev pub pair_of : ℕ → ℕ → Db → Option Conversation
pair_of a b db = head? (select (is_pair a b) db.conversations)

-- `mapConversation`: the dates go through `new Date(String(value))`.
abbrev pub map_conversation : Runtime → Conversation → Conversation
map_conversation rt row = record row {
  created_at = rt.row_date row.created_at;
  updated_at = rt.row_date row.updated_at;
}

-- The conversation of a pair, as it is returned.
abbrev pub mapped_pair : Runtime → ℕ → ℕ → Db → Option Conversation
mapped_pair rt a b db = elim (pair_of a b db) [
  | none ↦ none
  | some c ↦ some (map_conversation rt c)
]

abbrev pub has_user : ℕ → Db → Bool
has_user u db = any (λ x. x.id == u) db.users

-- The two bound parameters of a query over a pair of members.
abbrev pub cast_pair {ℓ} : {A : Type ℓ} → Runtime → Text × Text → (ℕ → ℕ → Result A) → Result A
cast_pair rt (s, t) f = elim (cast_uuid rt s) [
  | err e ↦ err e
  | ok a ↦ elim (cast_uuid rt t) [ err e ↦ err e | ok b ↦ f a b ]
]

unfoldable pub find_direct_conversation : Runtime → Text → Text → Exec (Option Conversation)
unfolding canonicalize_member_pair query
find_direct_conversation rt user_a user_b = query (λ db.
    cast_pair rt (canonicalize_member_pair user_a user_b) λ a b. ok (mapped_pair rt a b db, db))

abbrev pub is_membership : ℕ → ℕ → Member → Bool
is_membership conversation_id user_id m =
    m.conversation_id == conversation_id && m.user_id == user_id

-- INSERT ... ON CONFLICT (conversation_id, user_id) DO NOTHING, with the two foreign keys.
abbrev pub insert_member : ℕ → ℕ → Db → Result (Unit {0} × Db)
insert_member conversation_id user_id db =
    if any (is_membership conversation_id user_id) db.members
    then ok (tt, db)
    else if has_user user_id db && any (λ c. c.id == conversation_id) db.conversations
    then ok (
      tt,
      record db {
        members =
            db.members ++ record { conversation_id = conversation_id; user_id = user_id } ∷ [];
      },
    )
    else err (pg (codes "23503"))

-- The member is bound by its text.
unfoldable pub ensure_membership : Runtime → ℕ → Text → Exec (Unit {0})
unfolding query
ensure_membership rt conversation_id user_id =
    query λ db. elim (cast_uuid rt user_id) [
      | err e ↦ err e
      | ok u ↦ insert_member conversation_id u db
    ]

abbrev pub new_conversation : Runtime → ℕ → ℕ → ℕ → Conversation
new_conversation rt id a b = record {
  id = id;
  member_a_id = a;
  member_b_id = b;
  created_at = rt.now;
  updated_at = rt.now;
}

-- INSERT ... ON CONFLICT (member_a_id, member_b_id) DO NOTHING RETURNING: no row on a conflict. The
-- two CHECK constraints come first, then the conflict, the primary key and the foreign keys.
abbrev pub insert_conversation : Runtime → ℕ → ℕ → ℕ → Db → Result (Option Conversation × Db)
insert_conversation rt id a b db =
    if not (ltb a b)
    then err (pg (codes "23514"))
    else if any (is_pair a b) db.conversations
    then ok (none, db)
    else if any (λ c. c.id == id) db.conversations
    then err (pg (codes "23505"))
    else if has_user a db && has_user b db
    then ok (
      some (new_conversation rt id a b),
      record db { conversations = db.conversations ++ new_conversation rt id a b ∷ [] },
    )
    else err (pg (codes "23503"))

abbrev or_unresolved : Option Conversation → Exec Conversation
or_unresolved none =
    throw (plain (codes "Direct conversation could not be resolved after conflict"))
or_unresolved (some c) = pure c

-- The row that was inserted, or the one that was in its way.
unfoldable pub resolve_conversation :
    Runtime → Text × Text → Option Conversation → Exec Conversation
unfolding query
resolve_conversation rt pair (some c) = pure (map_conversation rt c)
resolve_conversation rt pair none = do
  existing ← query (λ db. cast_pair rt pair λ a b. ok (mapped_pair rt a b db, db))
  or_unresolved existing

-- The INSERT, and the row that it returns or that was in its way.
unfoldable pub insert_or_resolve : Runtime → ℕ → Text × Text → Exec Conversation
unfolding query resolve_conversation
insert_or_resolve rt id pair = do
  inserted ← query (λ db. cast_pair rt pair λ a b. insert_conversation rt id a b db)
  resolve_conversation rt pair inserted

-- The statements between BEGIN and COMMIT.
unfoldable pub create_body : Runtime → Text × Text → Exec Conversation
unfolding insert_or_resolve random_uuid ensure_membership
create_body rt (member_a_id, member_b_id) = do
  id ← random_uuid rt
  conversation ← insert_or_resolve rt id (member_a_id, member_b_id)
  ensure_membership rt conversation.id member_a_id
  ensure_membership rt conversation.id member_b_id
  pure conversation

unfoldable pub create_direct_conversation : Runtime → Text → Text → Exec Conversation
unfolding canonicalize_member_pair connect transaction create_body
create_direct_conversation rt user_a user_b = do
  connect
  transaction (create_body rt (canonicalize_member_pair user_a user_b))

unfoldable pub get_conversation_members : ℕ → Exec (List ℕ)
unfolding query
get_conversation_members conversation_id = query λ db. ok (
  order_by (by_key (λ u. u))
      (map (λ m. m.user_id) (select (λ m. m.conversation_id == conversation_id) db.members)),
  db,
)

unfoldable pub is_conversation_member : ℕ → ℕ → Exec Bool
unfolding query
is_conversation_member conversation_id user_id =
    query λ db. ok (length (select (is_membership conversation_id user_id) db.members) == 1, db)
