-- ===== src/Conversations/Tests.antt =====
-- A conversation of two users, created and found.
use mern_chat_app.Common.{ℕ, codes, ◌≡◌, refl, true, some, none, any, [], ◌∷◌, Text, false}
use mern_chat_app.Conversations.{
  create_direct_conversation, find_direct_conversation, is_membership, create_body,
  insert_or_resolve, resolve_conversation, ensure_membership, canonicalize_member_pair,
}
use mern_chat_app.Conversations.Creation.{create-find}
use mern_chat_app.Conversations.Pairs.{pair_comm}
use mern_chat_app.Database.{
  World, Conversation, durable, transaction, begin, commit, rollback, query, connect, random_uuid,
}
use mern_chat_app.Database.Samples.{sample_runtime, sample_world}
use mern_chat_app.Errors.{ok, err, plain}

abbrev one : Text
one = 1 ∷ []

abbrev two : Text
two = 2 ∷ []

abbrev created : Conversation
created = record {
  id = 100;
  member_a_id = 1;
  member_b_id = 2;
  created_at = 1_000;
  updated_at = 1_000;
}

creates : (create_direct_conversation sample_runtime two one sample_world).0 ≡ ok created
unfolding create_direct_conversation connect transaction create_body begin commit rollback query
    random_uuid insert_or_resolve resolve_conversation ensure_membership canonicalize_member_pair
creates = refl

abbrev later : World
later = record {
  db = durable (create_direct_conversation sample_runtime two one sample_world).1;
  saved = none;
  answers = [];
  drawn = 9;
}

create-find_example :
    ((find_direct_conversation sample_runtime two one later).0 ≡ ok (some created))
    × ((find_direct_conversation sample_runtime one two later).0 ≡ ok (some created))
    × (a b : ℕ) × (sample_runtime.read_uuid two ≡ some a)
    × (sample_runtime.read_uuid one ≡ some b)
    × (any (is_membership 100 a) later.db.members ≡ true)
    × (any (is_membership 100 b) later.db.members ≡ true)
create-find_example =
    create-find sample_runtime two one sample_world later created creates refl refl

pair_comm_example :
    (find_direct_conversation sample_runtime one two
      ≡ find_direct_conversation sample_runtime two one)
    × (create_direct_conversation sample_runtime one two
        ≡ create_direct_conversation sample_runtime two one)
pair_comm_example = pair_comm sample_runtime one two

-- The connection fails behind the third statement of the transaction.
abbrev failing : World
failing = record sample_world { answers = true ∷ true ∷ true ∷ false ∷ [] }

fails :
    (transaction (create_body sample_runtime (one, two)) failing).0
    ≡ err (plain (codes "Connection terminated unexpectedly"))
unfolding transaction create_body begin commit rollback query random_uuid insert_or_resolve
    resolve_conversation ensure_membership
fails = refl

commits : (transaction (create_body sample_runtime (one, two)) sample_world).0 ≡ ok created
unfolding transaction create_body begin commit rollback query random_uuid insert_or_resolve
    resolve_conversation ensure_membership
commits = refl
