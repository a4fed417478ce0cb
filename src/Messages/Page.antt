-- ===== src/Messages/Page.antt =====
-- The pages of a conversation, newest message first from query to query.
use mern_chat_app.Common.{
  ℕ, ◌≡◌, arith, false, ltb, length, take, reverse, map, List, [], ◌∷◌, refl, suc, ◌+◌, Option, ap,
  zero, ◌∙◌, Bool-cases, inl, inr,
}
use mern_chat_app.Database.{MessageRow, Runtime}
use mern_chat_app.Messages.{
  find_messages_by_conversation, listed_rows, map_message, Position, page_of,
}
use mern_chat_app.Outbox.{clamp}

module _ {A : Type 0} where
  length-map : {B : Type 0} (f : A → B) (xs : List A) → length (map f xs) ≡ length xs
  length-map f [] = refl
  length-map f (x ∷ xs) = ground (arith, length-map f xs)

  take-map : {B : Type 0} (f : A → B) (n : ℕ) (xs : List A) → take n (map f xs) ≡ map f (take n xs)
  take-map f zero xs = refl
  take-map f (suc n) [] = refl
  take-map f (suc n) (x ∷ xs) = ap (λ t. f x ∷ t) (take-map f n xs)

  take-take_suc : (n : ℕ) (xs : List A) → take n (take (n + 1) xs) ≡ take n xs
  take-take_suc zero xs = refl
  take-take_suc (suc n) [] = ground arith
  take-take_suc (suc n) (x ∷ xs) = ground (arith, take-take_suc n xs)

  more-take_suc : (n : ℕ) (xs : List A) → ltb n (length (take (n + 1) xs)) ≡ ltb n (length xs)
  more-take_suc zero [] = ground arith
  more-take_suc zero (x ∷ xs) = ground arith
  more-take_suc (suc n) [] = ground arith
  more-take_suc (suc n) (x ∷ xs) = ground (arith, more-take_suc n xs)

  take_all : (n : ℕ) (xs : List A) → ltb n (length xs) ≡ false → take (n + 1) xs ≡ take n xs
  take_all zero [] h = ground arith
  take_all zero (x ∷ xs) h = absurd (ground arith)
  take_all (suc n) [] h = ground arith
  take_all (suc n) (x ∷ xs) h = ground (arith, take_all n xs)

-- A page holds the first messages of the listing, as many as its limit (1 to 100) admits, oldest
-- first, and `hasMore` says whether the listing has more.
pub page_lem :
    (rt : Runtime) (conversation_id limit : ℕ) (cursor : Option Position) (rows : List MessageRow)
    → ((find_messages_by_conversation rt conversation_id limit cursor rows).messages
        ≡ reverse (
            map
              (map_message rt)
              (take (clamp 1 100 limit) (listed_rows conversation_id cursor rows))))
      × ((find_messages_by_conversation rt conversation_id limit cursor rows).has_more
          ≡ ltb (clamp 1 100 limit) (length (listed_rows conversation_id cursor rows)))
unfolding find_messages_by_conversation
page_lem rt conversation_id limit cursor rows =
    counted (clamp 1 100 limit) (listed_rows conversation_id cursor rows)
  where
    has_more :
        (n : ℕ) (xs : List MessageRow)
        → ltb n (length (map (map_message rt) (take (n + 1) xs))) ≡ ltb n (length xs)
    has_more n xs = ap (ltb n) (length-map (map_message rt) (take (n + 1) xs)) ∙ more-take_suc n xs

    counted :
        (n : ℕ) (xs : List MessageRow)
        → ((page_of n (map (map_message rt) (take (n + 1) xs))).messages
            ≡ reverse (map (map_message rt) (take n xs)))
          × ((page_of n (map (map_message rt) (take (n + 1) xs))).has_more ≡ ltb n (length xs))
    counted n xs = (
      elim (Bool-cases (ltb n (length xs))) [
        | inl e ↦
            rw (has_more n xs, e)
              (ap reverse (
                take-map (map_message rt) n (take (n + 1) xs)
                ∙ ap (map (map_message rt)) (take-take_suc n xs)))
        | inr e ↦
            rw (has_more n xs, e) (ap (λ t. reverse (map (map_message rt) t)) (take_all n xs e))
      ],
      has_more n xs,
    )
