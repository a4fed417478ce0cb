-- ===== src/UserController/Entry.antt =====
-- A login, and the request that follows it with its cookie.
use mern_chat_app.Common.{
  ℕ, Text, codes, ◌≡◌, refl, any, Bool, true, ◌==◌, ◌+◌, ◌≤◌, Option, none, some, List, [], ◌∷◌,
  ◌++◌, arith, inl, inr, Bool-cases, Option-cases, head?, ◌∙◌, ap, sym,
}
use mern_chat_app.Common.Sql.{select}
use mern_chat_app.Database.{
  World, Db, Runtime, Session, User, Exec, first_answer, ◌>>=◌, continue, pure,
}
use mern_chat_app.Database.Transactions.{bind-eq-ok}
use mern_chat_app.Errors.{Result, ok, err}
use mern_chat_app.Js.{Js, prop}
use mern_chat_app.Js.Uuid.{is_loose_id}
use mern_chat_app.Messages.{text_of}
use mern_chat_app.Sessions.{
  Tokens, set_auth_cookies, new_session, is_active_id, refresh_token_ttl_ms, CookieChange,
  set_access, set_refresh, verify_access_token, find_active_session_by_id, access_token_ttl_ms,
}
use mern_chat_app.Sessions.Guard.{secure_route, with_payload, with_session}
use mern_chat_app.UserController.{login, login_body, message_user, answered, respond}
use mern_chat_app.UserService.{Crypto, authenticate_user, checked, normalize_email}
use mern_chat_app.UserService.Directory.{find_public_by_id}
use mern_chat_app.Users.{PublicUser, public_user, find_user_by_normalized_email, map_user}

found_in_append :
    {A : Type 0} (p : A → Bool) (xs : List A) (a : A)
    → p a ≡ true
    → (x : A) × (head? (select p (xs ++ a ∷ [])) ≡ some x)
found_in_append p [] a h = (a, ground arith)
found_in_append p (y ∷ xs) a h = elim (Bool-cases (p y)) [
  | inl e ↦ (y, ground arith)
  | inr e ↦ let (x, k) = found_in_append p xs a h in (x, ground arith)
]

user_found :
    (n : ℕ) (users : List User)
    → any (λ x. x.id == n) users ≡ true
    → (u : User) × (head? (select (λ x. x.id == n) users) ≡ some u) × (u.id ≡ n)
user_found n [] h = absurd (ground arith)
user_found n (y ∷ users) h = elim (Bool-cases (y.id == n)) [
  | inl e ↦ (y, ground arith, ground arith)
  | inr e ↦ let (u, k, same) = user_found n users (ground arith) in (u, ground arith, same)
]

-- The cookies that were set, and the session that was stored.
set_auth_cookies_lem :
    (rt : Runtime) (k : Tokens) (t : Text) (now : ℕ) (w : World) (cookies : List CookieChange)
    → (set_auth_cookies rt k t now w).0 ≡ ok cookies
    → (n : ℕ) × (rt.read_uuid t ≡ some n)
      × (any (λ x. x.id == n) (set_auth_cookies rt k t now w).1.db.users ≡ true)
      × (cookies
          ≡ set_access (k.sign t (rt.print_uuid (rt.random_uuid w.drawn)) now)
            ∷ set_refresh (k.random_token w.drawn)
            ∷ [])
      × ((set_auth_cookies rt k t now w).1.db.sessions
          ≡ w.db.sessions
            ++ new_session rt
                (rt.random_uuid w.drawn)
                n
                (k.hash_token (k.random_token w.drawn))
                (now + refresh_token_ttl_ms)
                now
              ∷ [])
unfolding set_auth_cookies mern_chat_app.Sessions.create_session mern_chat_app.Database.query
    mern_chat_app.Database.random_uuid
set_auth_cookies_lem rt k t now w cookies h = elim (Option-cases (rt.read_uuid t)) [
  | inl c ↦ absurd (ground arith)
  | inr (n, c) ↦ (n, c, ground arith, ground arith, ground arith)
]

bind-drawn :
    {A B : Type 0} (m : Exec A) (f : A → Exec B) (w : World)
    → (m w).1.drawn ≡ w.drawn
    → ((a : A) (v : World) → (f a v).1.drawn ≡ v.drawn)
    → ((m >>= f) w).1.drawn ≡ w.drawn
bind-drawn {A} m f w h k = continued (m w).0 ∙ h
  where
    continued : (r : Result A) → (continue r f (m w).1).1.drawn ≡ (m w).1.drawn
    continued (ok a) = k a (m w).1
    continued (err e) = refl

find-drawn :
    (rt : Runtime) (email : Text) (w : World)
    → (find_user_by_normalized_email rt email w).1.drawn ≡ w.drawn
unfolding find_user_by_normalized_email mern_chat_app.Database.query
find-drawn rt email w = ground arith

checked-drawn :
    (k : Crypto) (password : Text) (o : Option User) (w : World)
    → (checked k password o w).1.drawn ≡ w.drawn
unfolding checked
checked-drawn k password none w = refl
checked-drawn k password (some u) w = ground arith

authenticate-drawn :
    (rt : Runtime) (crypto : Crypto) (email password : Text) (w : World)
    → (authenticate_user rt crypto email password w).1.drawn ≡ w.drawn
unfolding authenticate_user
authenticate-drawn rt crypto email password w = ground (
  arith,
  bind-drawn (find_user_by_normalized_email rt (normalize_email crypto email))
      (checked crypto password) w (find-drawn rt (normalize_email crypto email) w)
      (checked-drawn crypto password),
)

response_lem :
    (r : Result (User × List CookieChange)) (m t : Text) (c : ℕ) (p : PublicUser)
    → (answered (λ x. respond 200 (message_user t (public_user x.0)) x.1) r).result
      ≡ ok (record { status_code = c; body = message_user m p })
    → (u : User) × (cookies : List CookieChange) × (r ≡ ok (u, cookies)) × (p ≡ public_user u)
response_lem (err e) m t c p h = absurd (ground arith)
response_lem (ok (u, cookies)) m t c p h = (u, cookies, refl, ground arith)

pair_lem :
    {A B : Type 0} (a x : A) (b y : B) (w : World)
    → (pure {A = A × B} (a, b) w).0 ≡ ok (x, y)
    → (a ≡ x) × (b ≡ y)
pair_lem a x b y w h = (ground arith, ground arith)

-- A login that returned.
login_body_lem :
    (rt : Runtime) (k : Tokens) (crypto : Crypto) (email password : Text) (now : ℕ) (w : World)
    (u : User) (cookies : List CookieChange)
    → (login_body rt k crypto email password now w).0 ≡ ok (u, cookies)
    → (v : World) × (v.drawn ≡ w.drawn)
      × ((set_auth_cookies rt k (rt.print_uuid u.id) now v).0 ≡ ok cookies)
      × ((login_body rt k crypto email password now w).1
          ≡ (set_auth_cookies rt k (rt.print_uuid u.id) now v).1)
unfolding login_body
login_body_lem rt k crypto email password now w u cookies h0 =
    let (a, h1, h2, same) =
      bind-eq-ok (authenticate_user rt crypto email password) _ w (u, cookies) h0 in
    let v = (authenticate_user rt crypto email password w).1 in
    let (b, h3, h4, same2) =
      bind-eq-ok (set_auth_cookies rt k (rt.print_uuid a.id) now) _ v (u, cookies) h2 in
    let (ea, eb) = pair_lem a u b cookies (set_auth_cookies rt k (rt.print_uuid a.id) now v).1 h4 in
    (
      v,
      authenticate-drawn rt crypto email password w,
      ap (λ x. (set_auth_cookies rt k (rt.print_uuid x.id) now v).0) (sym ea) ∙ h3 ∙ ap ok eb,
      ap (λ r. r.1) same
          ∙ ap (λ r. r.1) same2
          ∙ ap (λ x. (set_auth_cookies rt k (rt.print_uuid x.id) now v).1) ea,
    )

-- The guard, for a token whose payload is right.
secure_lem :
    (rt : Runtime) (k : Tokens) (token t i : Text) (n j now : ℕ) (v : World) (rows : List Session)
    (s : Session)
    → verify_access_token k token now ≡ ok (record { user_id = t; session_id = i })
    → rt.read_uuid t ≡ some n
    → rt.read_uuid i ≡ some j
    → v.db.sessions ≡ rows ++ s ∷ []
    → is_active_id j n now s ≡ true
    → any (λ x. x.id == n) v.db.users ≡ true
    → v.answers ≡ []
    → (p : PublicUser) × ((secure_route rt k (some token) now v).0 ≡ ok p) × (p.id ≡ n)
unfolding secure_route with_payload with_session find_active_session_by_id find_public_by_id
    mern_chat_app.Database.query mern_chat_app.Users.find_user_by_id
secure_lem rt k token t i n j now v rows s hv ht hi hs active some_ answers =
    let (x, found) = found_in_append (is_active_id j n now) rows s active in
    let (u, ku, same) = user_found n v.db.users some_ in
    (public_user (map_user rt u), ground arith, same)

-- A token whose claims are those texts.
verified_lem :
    (k : Tokens) (token t i : Text) (now : ℕ) (v : Js)
    → k.verify token now ≡ ok v
    → text_of (prop (codes "userId") v) ≡ some t
    → text_of (prop (codes "sessionId") v) ≡ some i
    → is_loose_id t ≡ true
    → is_loose_id i ≡ true
    → verify_access_token k token now ≡ ok (record { user_id = t; session_id = i })
unfolding verify_access_token
verified_lem k token t i now v h ht hi lt li = ground arith

new_lem :
    (rt : Runtime) (i n : ℕ) (h : Text) (now later : ℕ)
    → later + 1_000 ≤ now + access_token_ttl_ms
    → is_active_id i n later (new_session rt i n h (now + refresh_token_ttl_ms) now) ≡ true
new_lem rt i n h now later early = ground arith

read_lem : (n m : ℕ) → some n ≡ some m → n ≡ m
read_lem n m e = ground arith

-- Suppose a text of a UUID is read back as that UUID, a token that was signed for two texts is verified
-- until a second before its 15 minutes have passed and then has these two as its claims, and the texts of
-- the user's id and of the drawn id of the session have the shape of one. Then a login that answered with
-- a user has set an access cookie and a refresh cookie, and on the database that it left `secureRoute`,
-- with queries that are answered, lets a request with that access cookie through as that user, at any
-- time until then.
pub login-secure_route :
    (rt : Runtime) (k : Tokens) (crypto : Crypto) (email password m : Text) (now later c : ℕ)
    (w v : World) (p : PublicUser)
    → ((n : ℕ) → rt.read_uuid (rt.print_uuid n) ≡ some n)
    → ((t i : Text) (at at' : ℕ)
        → at' + 1_000 ≤ at + access_token_ttl_ms
        → (x : Js) × (k.verify (k.sign t i at) at' ≡ ok x)
          × (text_of (prop (codes "userId") x) ≡ some t)
          × (text_of (prop (codes "sessionId") x) ≡ some i))
    → is_loose_id (rt.print_uuid p.id) ≡ true
    → is_loose_id (rt.print_uuid (rt.random_uuid w.drawn)) ≡ true
    → (login rt k crypto email password now w).0.result
      ≡ ok (record { status_code = c; body = message_user m p })
    → v.db ≡ (login rt k crypto email password now w).1.db
    → v.answers ≡ []
    → later + 1_000 ≤ now + access_token_ttl_ms
    → (token fresh : Text) × ((login rt k crypto email password now w).0.cookies
        ≡ set_access token ∷ set_refresh fresh ∷ [])
      × (q : PublicUser) × ((secure_route rt k (some token) later v).0 ≡ ok q)
      × (q.id ≡ p.id)
unfolding login
login-secure_route rt k crypto email password m now later c w v p reads verifies lu ls h same
      answers early =
    let (u, cookies, h0, hp) =
      response_lem (login_body rt k crypto email password now w).0 m
        (codes "User logged in successfully") c p h in
    let (a, drawn, hset, kept) = login_body_lem rt k crypto email password now w u cookies h0 in
    let (n, reads_n, some_, set, stored) =
      set_auth_cookies_lem rt k (rt.print_uuid u.id) now a cookies hset in
    let i = rt.random_uuid a.drawn in
    let token = k.sign (rt.print_uuid u.id) (rt.print_uuid i) now in
    let (x, hv, ht, hi) = verifies (rt.print_uuid u.id) (rt.print_uuid i) now later early in
    let db = same ∙ ap (λ y. y.db) kept in
    let (q, passed, ids) =
      secure_lem rt k token (rt.print_uuid u.id) (rt.print_uuid i) n i later v a.db.sessions _
        (verified_lem k token (rt.print_uuid u.id) (rt.print_uuid i) later x hv ht hi
          (ap (λ y. is_loose_id (rt.print_uuid y.id)) (sym hp) ∙ lu)
          (ap (λ d. is_loose_id (rt.print_uuid (rt.random_uuid d))) drawn ∙ ls))
        reads_n (reads i) (ap (λ d. d.sessions) db ∙ stored)
        (new_lem rt i n (k.hash_token (k.random_token a.drawn)) now later early)
        (ap (λ d. any (λ y. y.id == n) d.users) db ∙ some_) answers in
    (
      token,
      k.random_token a.drawn,
      ap
            (λ r.
              (answered
                (λ y.
                  respond 200 (message_user (codes "User logged in successfully") (public_user y.0))
                    y.1)
                r).cookies)
            h0
          ∙ set,
      q,
      passed,
      ids ∙ read_lem n u.id (sym reads_n ∙ reads u.id) ∙ ap (λ y. y.id) (sym hp),
    )
