-- ===== src/Conversations/Creation.antt =====
-- What `createDirectConversation` leaves in the database.
use mern_chat_app.Common.{
  ℕ, ◌≡◌, Bool, Text, List, true, any, some, arith, ◌++◌, false, ◌∷◌, head?, [], Option-cases, inl,
  inr, ◌+◌, refl, subst, sym, ◌∙◌, ◌⊎◌, ap, Option,
}
use mern_chat_app.Conversations.{
  canonicalize_member_pair, find_direct_conversation, create_direct_conversation, create_body,
  mapped_pair, is_membership, is_pair, new_conversation, ensure_membership, insert_or_resolve,
}
use mern_chat_app.Database.{
  Runtime, Conversation, Db, pure, durable, first_answer, connect, transaction, Exec,
}
use mern_chat_app.Database.Transactions.{IsInside, bind-eq-ok, transaction_commits, begun}
use mern_chat_app.Errors.{ok}
use mern_chat_app.Common.Sql.{select}
use mern_chat_app.Database.{World, ◌>>◌}
use mern_chat_app.Conversations.Pairs.{pair_comm}

pub create_body-IsInside : (rt : Runtime) (pair : Text × Text) → IsInside (create_body rt pair)
unfolding create_body
create_body-IsInside rt (a, b) w = ground arith

any-append_self :
    {A : Type 0} (p : A → Bool) (xs : List A) (a : A) → p a ≡ true → any p (xs ++ a ∷ []) ≡ true
any-append_self p [] a h = ground arith
any-append_self p (x ∷ xs) a h = ground (arith, any-append_self p xs a h)

any-append_old :
    {A : Type 0} (p : A → Bool) (xs : List A) (a : A)
    → any p xs ≡ true
    → any p (xs ++ a ∷ []) ≡ true
any-append_old p [] a h = cc
any-append_old p (x ∷ xs) a h = ground (arith, any-append_old p xs a)

head-select-append :
    {A : Type 0} (p : A → Bool) (xs : List A) (a : A)
    → any p xs ≡ false
    → p a ≡ true
    → head? (select p (xs ++ a ∷ [])) ≡ some a
head-select-append p [] a h k = ground arith
head-select-append p (x ∷ xs) a h k = ground (arith, head-select-append p xs a)

-- What holds of the conversation and its members once both memberships are ensured.
abbrev pub IsResolved : Runtime → ℕ → ℕ → Conversation → Db → Type 0
IsResolved rt a b c db =
    (mapped_pair rt a b db ≡ some c)
    × (any (is_membership c.id a) db.members ≡ true)
    × (any (is_membership c.id b) db.members ≡ true)

assemble :
    (rt : Runtime) (a b x y : ℕ) (c d : Conversation) (db2 db3 db4 : Db)
    → mapped_pair rt a b db2 ≡ some d
    → x ≡ a
    → y ≡ b
    → c ≡ d
    → db3.conversations ≡ db2.conversations
    → db4.conversations ≡ db3.conversations
    → any (is_membership d.id x) db3.members ≡ true
    → any (is_membership d.id y) db4.members ≡ true
    → any (is_membership d.id x) db4.members ≡ true
    → IsResolved rt a b c db4
assemble rt a b x y c d db2 db3 db4 pair ex ey ec conv1 conv2 m1 m2 m3 =
    (rw (conv2, conv1, pair, ec) refl, rw (← ex, ec) m3, rw (← ey, ec) m2)

module _ (rt : Runtime) where
  -- The conversation that the first statements settle on is found by its pair.
  resolve_lem :
      (id : ℕ) (s t : Text) (w : World) (c : Conversation)
      → (insert_or_resolve rt id (s, t) w).0 ≡ ok c
      → (a b : ℕ) × (rt.read_uuid s ≡ some a)
        × (rt.read_uuid t ≡ some b)
        × (mapped_pair rt a b (insert_or_resolve rt id (s, t) w).1.db ≡ some c)
  unfolding insert_or_resolve
  resolve_lem id s t w c h = elim (Option-cases (rt.read_uuid s)) [
    | inl e ↦ absurd (ground arith)
    | inr (a, e) ↦ elim (Option-cases (rt.read_uuid t)) [
      | inl e' ↦ absurd (ground arith)
      | inr (b, e') ↦ (
        a,
        b,
        e,
        e',
        ground (
          arith,
          head-select-append (is_pair a b) w.db.conversations (new_conversation rt id a b),
        ),
      )
    ]
  ]

  ensure_lem :
      (i : ℕ) (u : Text) (w : World)
      → (ensure_membership rt i u w).0 ≡ ok tt
      → (x : ℕ) × (rt.read_uuid u ≡ some x)
        × ((ensure_membership rt i u w).1.db.conversations ≡ w.db.conversations)
        × (any (is_membership i x) (ensure_membership rt i u w).1.db.members ≡ true)
        × ((v : ℕ)
            → any (is_membership i v) w.db.members ≡ true
            → any (is_membership i v) (ensure_membership rt i u w).1.db.members ≡ true)
  unfolding ensure_membership
  ensure_lem i u w h = elim (Option-cases (rt.read_uuid u)) [
    | inl e ↦ absurd (ground arith)
    | inr (x, e) ↦ (
      x,
      e,
      ground arith,
      ground (
        arith,
        any-append_self (is_membership i x) w.db.members
            (record { conversation_id = i; user_id = x }),
      ),
      λ v k. ground (
        arith,
        any-append_old (is_membership i v) w.db.members
            (record { conversation_id = i; user_id = x }),
      ),
    )
  ]

  create_body_lem :
      (s t : Text) (w : World) (c : Conversation)
      → (create_body rt (s, t) w).0 ≡ ok c
      → (a b : ℕ) × (rt.read_uuid s ≡ some a)
        × (rt.read_uuid t ≡ some b)
        × IsResolved rt a b c (create_body rt (s, t) w).1.db
  unfolding create_body
  create_body_lem s t w c h =
      let (d, found, h1, same1) =
        bind-eq-ok (insert_or_resolve rt (rt.random_uuid w.drawn) (s, t))
          (λ d. do ensure_membership rt d.id s; ensure_membership rt d.id t; pure d)
          (record w { drawn = w.drawn + 1 }) c h in
      let w2 =
        (insert_or_resolve rt (rt.random_uuid w.drawn) (s, t)
          (record w { drawn = w.drawn + 1 })).1 in
      let (a, b, ea, eb, pair) =
        resolve_lem (rt.random_uuid w.drawn) s t (record w { drawn = w.drawn + 1 }) d found in
      let (u1, done1, h2, same2) =
        bind-eq-ok (ensure_membership rt d.id s) (λ _. do ensure_membership rt d.id t; pure d) w2 c
          h1 in
      let w3 = (ensure_membership rt d.id s w2).1 in
      let (u2, done2, h3, same3) = bind-eq-ok (ensure_membership rt d.id t) (λ _. pure d) w3 c h2 in
      let (x, ex, conv1, mem1, keep1) = ensure_lem d.id s w2 done1 in
      let (y, ey, conv2, mem2, keep2) = ensure_lem d.id t w3 done2 in
      (
        a,
        b,
        ea,
        eb,
        subst (λ r. IsResolved rt a b c r.1.db) (sym (same1 ∙ same2 ∙ same3))
            (assemble rt a b x y c d w2.db w3.db (ensure_membership rt d.id t w3).1.db pair
              (ground arith) (ground arith) (ground arith) conv1 conv2 mem1 mem2 (keep2 x mem1)),
      )

-- The transaction over a pair commits a resolved conversation.
create_commits :
    (rt : Runtime) (s t p q : Text) (w : World) (c : Conversation)
    → canonicalize_member_pair s t ≡ (p, q)
    → (create_direct_conversation rt s t w).0 ≡ ok c
    → (a b : ℕ) × (rt.read_uuid p ≡ some a)
      × (rt.read_uuid q ≡ some b)
      × IsResolved rt a b c (durable (create_direct_conversation rt s t w).1)
unfolding create_direct_conversation connect
create_commits rt s t p q w c canon h =
    let body = create_body rt (canonicalize_member_pair s t) in
    let (u, done, h2, same) = bind-eq-ok connect (λ _. transaction body) w c h in
    let (hb, lasts, over) = transaction_commits body (connect w).1 c h2 in
    let (a, b, ea, eb, resolved) =
      create_body_lem rt p q (begun (connect w).1) c (rw canon at hb) in
    (
      a,
      b,
      ea,
      eb,
      subst (IsResolved rt a b c)
          (sym (
            ap (λ r. durable r.1) same
            ∙ lasts
            ∙ ap (λ (pair : Text × Text). (create_body rt pair (begun (connect w).1)).1.db) canon))
          resolved,
    )

find_of_resolved :
    (rt : Runtime) (s t p q : Text) (v : World) (a b : ℕ) (c : Conversation)
    → canonicalize_member_pair s t ≡ (p, q)
    → rt.read_uuid p ≡ some a
    → rt.read_uuid q ≡ some b
    → mapped_pair rt a b v.db ≡ some c
    → first_answer v.answers ≡ true
    → (find_direct_conversation rt s t v).0 ≡ ok (some c)
unfolding find_direct_conversation
find_of_resolved rt s t p q v a b c canon ep eq_ found answers = rw (canon) (ground arith)

canonical_cases :
    (s t : Text) → (canonicalize_member_pair s t ≡ (s, t)) ⊎ (canonicalize_member_pair s t ≡ (t, s))
unfolding canonicalize_member_pair
canonical_cases s t = ground arith

-- A conversation that `createDirectConversation` returns lasts: in the database it leaves, a
-- `findDirectConversation` that is answered finds it from either side, and both users are members.
pub create-find :
    (rt : Runtime) (s t : Text) (w v : World) (c : Conversation)
    → (create_direct_conversation rt s t w).0 ≡ ok c
    → v.db ≡ durable (create_direct_conversation rt s t w).1
    → first_answer v.answers ≡ true
    → ((find_direct_conversation rt s t v).0 ≡ ok (some c))
      × ((find_direct_conversation rt t s v).0 ≡ ok (some c))
      × (a b : ℕ) × (rt.read_uuid s ≡ some a)
      × (rt.read_uuid t ≡ some b)
      × (any (is_membership c.id a) v.db.members ≡ true)
      × (any (is_membership c.id b) v.db.members ≡ true)
create-find rt s t w v c h same answers = elim (canonical_cases s t) [
  | inl canon ↦
      let (a, b, ea, eb, made) = create_commits rt s t s t w c canon h in
      let r = subst (IsResolved rt a b c) (sym same) made in
      let found = find_of_resolved rt s t s t v a b c canon ea eb r.0 answers in
      (found, other found, a, b, ea, eb, r.1, r.2)
  | inr canon ↦
      let (b, a, eb, ea, made) = create_commits rt s t t s w c canon h in
      let r = subst (IsResolved rt b a c) (sym same) made in
      let found = find_of_resolved rt s t t s v b a c canon eb ea r.0 answers in
      (found, other found, a, b, ea, eb, r.2, r.1)
]
  where
    other :
        (find_direct_conversation rt s t v).0 ≡ ok (some c)
        → (find_direct_conversation rt t s v).0 ≡ ok (some c)
    other found =
        subst (λ (f : Exec (Option Conversation)). (f v).0 ≡ ok (some c)) (pair_comm rt s t).0 found
