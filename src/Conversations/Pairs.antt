-- ===== src/Conversations/Pairs.antt =====
-- `canonicalizeMemberPair` and the order of the two members.
use mern_chat_app.Common.{◌≡◌, Text, text_lt, arith, true, false, ◌∷◌, [], refl}
use mern_chat_app.Conversations.{
  canonicalize_member_pair, find_direct_conversation, create_direct_conversation,
}
use mern_chat_app.Database.{Runtime}

-- `<` on texts is a strict order: of two texts one is less, or they are equal.
text_lt-asym : (a b : Text) → text_lt a b ≡ true → text_lt b a ≡ false
text_lt-asym a [] h = ground arith
text_lt-asym [] (y ∷ b) h = refl
text_lt-asym (x ∷ a) (y ∷ b) h = ground (arith, text_lt-asym a b)

text_lt-connected : (a b : Text) → text_lt a b ≡ false → text_lt b a ≡ false → a ≡ b
text_lt-connected [] [] h k = refl
text_lt-connected (x ∷ a) [] h k = cc
text_lt-connected [] (y ∷ b) h k = cc
text_lt-connected (x ∷ a) (y ∷ b) h k = ground (arith, text_lt-connected a b)

canonicalize_comm : (a b : Text) → canonicalize_member_pair a b ≡ canonicalize_member_pair b a
unfolding canonicalize_member_pair
canonicalize_comm a b = ground (arith, text_lt-asym a b, text_lt-asym b a, text_lt-connected a b)

-- Whoever asks: looking for the conversation of two users, or creating it, is the same in both
-- orders, in every state of the database and whatever queries fail.
pub pair_comm :
    (rt : Runtime) (a b : Text)
    → (find_direct_conversation rt a b ≡ find_direct_conversation rt b a)
      × (create_direct_conversation rt a b ≡ create_direct_conversation rt b a)
unfolding find_direct_conversation create_direct_conversation
pair_comm rt a b = (rw (canonicalize_comm a b) refl, rw (canonicalize_comm a b) refl)
