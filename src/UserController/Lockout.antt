-- ===== src/UserController/Lockout.antt =====
-- What is left to the client of a user whose sessions were all revoked.
use mern_chat_app.Common.{
  ℕ, Text, ◌≡◌, refl, ◌==◌, Option, none, some, List, arith, inl, inr, Bool-cases, Option-cases,
  head?, ◌∙◌, ap,
}
use mern_chat_app.Common.Sql.{select}
use mern_chat_app.Database.{World, Runtime, Session, User, Exec, query, first_answer}
use mern_chat_app.Errors.{Result, ok, err}
use mern_chat_app.Sessions.{
  Tokens, is_active_id, is_active_hash, used, find_active_session_by_id, map_session,
  mapped_session, use_session, new_session, AccessTokenPayload, verify_access_token,
  refresh_session, CookieChange, revoke_all_sessions,
}
use mern_chat_app.Sessions.Guard.{secure_route, with_payload, with_session, known_user}
use mern_chat_app.Sessions.Spec.{SessionCall, perform_all}
use mern_chat_app.UserController.{
  logout_all, refresh, Response, only_user, refresh_user, refresh_with, cleared, is_not_found,
}
use mern_chat_app.Users.{PublicUser, find_user_by_id}
use mern_chat_app.UserService.Directory.{find_public_by_id, get_public_user}
use mern_chat_app.Database.Transactions.{bind-eq-ok}
use mern_chat_app.UserController.Revoked.{
  HasNone, AreForOthers, active_other, hash_other, perform_all-HasNone, logout_all-HasNone,
  user_id_lem,
}

-- The two lookups by the text of an id.
find_session_lem :
    (rt : Runtime) (n now : ℕ) (i t : Text) (w : World) (s : Session)
    → HasNone n w.db.sessions
    → (find_active_session_by_id rt i t now w).0 ≡ ok (some s)
    → ¬ (rt.read_uuid t ≡ some n)
unfolding find_active_session_by_id mern_chat_app.Database.query
find_session_lem rt n now i t w s none_ h e = elim (Option-cases (rt.read_uuid i)) [
  | inl c ↦ absurd (ground arith)
  | inr (v, c) ↦ elim (Option-cases (head? (select (is_active_id v n now) w.db.sessions))) [
    | inl d ↦ absurd (ground arith)
    | inr (x, d) ↦ active_other n v n now w.db.sessions x none_ d refl
  ]
]

find_public_lem :
    (rt : Runtime) (t : Text) (w : World) (u : PublicUser)
    → (find_public_by_id rt t w).0 ≡ ok (some u)
    → rt.read_uuid t ≡ some u.id
unfolding find_public_by_id find_user_by_id mern_chat_app.Database.query
find_public_lem rt t w u h = elim (Option-cases (rt.read_uuid t)) [
  | inl c ↦ absurd (ground arith)
  | inr (v, c) ↦ elim (Option-cases (head? (select (λ x. x.id == v) w.db.users))) [
    | inl d ↦ absurd (ground arith)
    | inr (x, d) ↦ ground (arith, user_id_lem v w.db.users x d)
  ]
]

known_user_lem :
    (o : Option PublicUser) (w : World) (u : PublicUser) → (known_user o w).0 ≡ ok u → o ≡ some u
known_user_lem none w u h = absurd (ground arith)
known_user_lem (some x) w u h = ground arith

-- Behind the lookup of the session.
with_session_lem :
    (rt : Runtime) (t : Text) (o : Option Session) (w : World) (u : PublicUser)
    → (with_session rt t o w).0 ≡ ok u
    → ((s : Session) × (o ≡ some s)) × (rt.read_uuid t ≡ some u.id)
unfolding with_session
with_session_lem rt t none w u h = absurd (ground arith)
with_session_lem rt t (some s) w u h =
    let (o, h1, h2, same) = bind-eq-ok (find_public_by_id rt t) known_user w u h in
    (
      (s, refl),
      find_public_lem rt t w u (h1 ∙ ap ok (known_user_lem o (find_public_by_id rt t w).1 u h2)),
    )

with_payload_other :
    (rt : Runtime) (n now : ℕ) (p : Result AccessTokenPayload) (w : World) (u : PublicUser)
    → HasNone n w.db.sessions
    → (with_payload rt now p w).0 ≡ ok u
    → ¬ (u.id ≡ n)
unfolding with_payload
with_payload_other rt n now (err x) w u none_ h e = absurd (ground arith)
with_payload_other rt n now (ok p) w u none_ h e =
    let find = find_active_session_by_id rt p.session_id p.user_id now in
    let (o, h1, h2, same) = bind-eq-ok find (with_session rt p.user_id) w u h in
    let ((s, some_), reads) = with_session_lem rt p.user_id o (find w).1 u h2 in
    find_session_lem rt n now p.session_id p.user_id w s none_ (h1 ∙ ap ok some_)
      (reads ∙ ap some e)

guard_other :
    (rt : Runtime) (k : Tokens) (n now : ℕ) (cookie : Option Text) (w : World) (u : PublicUser)
    → HasNone n w.db.sessions
    → (secure_route rt k cookie now w).0 ≡ ok u
    → ¬ (u.id ≡ n)
unfolding secure_route
guard_other rt k n now none w u none_ h e = absurd (ground arith)
guard_other rt k n now (some token) w u none_ h e =
    with_payload_other rt n now (verify_access_token k token now) w u none_ h e

-- The same of `refresh`.
refreshed_other :
    (rt : Runtime) (k : Tokens) (n now : ℕ) (token : Text) (w : World) (s : Session)
    (c : List CookieChange)
    → HasNone n w.db.sessions
    → (refresh_session rt k token now w).0 ≡ ok (some (s, c))
    → ¬ (s.user_id ≡ n)
unfolding refresh_session mern_chat_app.Sessions.find_active_session_by_token_hash
    mern_chat_app.Database.query
refreshed_other rt k n now token w s c none_ h e =
    elim (Option-cases (use_session (k.hash_token token) now w.db.sessions).0) [
      | inl d ↦ absurd (ground arith)
      | inr (x, d) ↦ hash_other n (k.hash_token token) now w.db.sessions x none_ d (ground arith)
    ]

get_public_lem :
    (rt : Runtime) (t : Text) (w : World) (u : PublicUser)
    → (get_public_user rt t w).0 ≡ ok u
    → rt.read_uuid t ≡ some u.id
unfolding get_public_user
get_public_lem rt t w u h =
    let (o, h1, h2, same) = bind-eq-ok (find_public_by_id rt t) _ w u h in
    elim (Option-cases o) [
      | inl c ↦ absurd (ground arith)
      | inr (x, c) ↦ find_public_lem rt t w u (ground arith)
    ]

cleared_lem :
    (c : List CookieChange) (r : Result (Unit {0})) (x : Response) → ¬ ((cleared c r).result ≡ ok x)
cleared_lem c (ok u) x h = absurd (ground arith)
cleared_lem c (err e) x h = absurd (ground arith)

refresh_user_lem :
    (rt : Runtime) (s : Session) (c : List CookieChange) (r : Result PublicUser) (w : World) (n : ℕ)
    (u : PublicUser)
    → (refresh_user rt s c r w).0.result ≡ ok (record { status_code = n; body = only_user u })
    → r ≡ ok u
unfolding refresh_user
refresh_user_lem rt s c (ok x) w n u h = ground arith
refresh_user_lem rt s c (err e) w n u h = elim (Bool-cases (is_not_found e)) [
  | inl d ↦ absurd (
      cleared_lem c (revoke_all_sessions rt (rt.print_uuid s.user_id) w).0
        (record { status_code = n; body = only_user u }) (ground arith))
  | inr d ↦ absurd (ground arith)
]

refresh_with_other :
    (rt : Runtime) (n c : ℕ) (r : Result (Option (Session × List CookieChange))) (w : World)
    (u : PublicUser)
    → ((i : ℕ) → rt.read_uuid (rt.print_uuid i) ≡ some i)
    → ((s : Session) (changes : List CookieChange) → r ≡ ok (some (s, changes)) → ¬ (s.user_id ≡ n))
    → (refresh_with rt r w).0.result ≡ ok (record { status_code = c; body = only_user u })
    → ¬ (u.id ≡ n)
unfolding refresh_with
refresh_with_other rt n c (err x) w u reads other h e = absurd (ground arith)
refresh_with_other rt n c (ok none) w u reads other h e = absurd (ground arith)
refresh_with_other rt n c (ok (some (s, changes))) w u reads other h e =
    let t = rt.print_uuid s.user_id in
    let got =
      refresh_user_lem rt s changes (get_public_user rt t w).0 (get_public_user rt t w).1 c u h in
    other s changes refl (ground (arith, get_public_lem rt t w u got, reads s.user_id))

refresh_other :
    (rt : Runtime) (k : Tokens) (n now c : ℕ) (cookie : Option Text) (w : World) (u : PublicUser)
    → ((i : ℕ) → rt.read_uuid (rt.print_uuid i) ≡ some i)
    → HasNone n w.db.sessions
    → (refresh rt k cookie now w).0.result ≡ ok (record { status_code = c; body = only_user u })
    → ¬ (u.id ≡ n)
unfolding refresh
refresh_other rt k n now c none w u reads none_ h e = absurd (ground arith)
refresh_other rt k n now c (some token) w u reads none_ h e =
    refresh_with_other rt n c (refresh_session rt k token now w).0
      (refresh_session rt k token now w).1 u reads
      (λ s changes. refreshed_other rt k n now token w s changes none_) h e

-- If the text of a UUID is read back as that UUID: after a `logoutAll` of a user that returned, and any
-- further calls of the session repository that create no session for that user, with queries that fail at
-- any point, no cookie at any time makes `secureRoute` let a request through as that user or makes
-- `refresh` answer with that user.
pub logout_all_locks :
    (rt : Runtime) (k : Tokens) (user : PublicUser) (w : World) (r : Response)
    (calls : List SessionCall)
    → ((i : ℕ) → rt.read_uuid (rt.print_uuid i) ≡ some i)
    → (logout_all rt user w).0.result ≡ ok r
    → AreForOthers rt user.id calls
    → (access token : Option Text) (now c : ℕ) (u : PublicUser) → u.id ≡ user.id
    → let v = (perform_all rt calls (logout_all rt user w).1).1 in
      (¬ ((secure_route rt k access now v).0 ≡ ok u))
      × (¬ (
          (refresh rt k token now v).0.result
          ≡ ok (record { status_code = c; body = only_user u })))
logout_all_locks rt k user w r calls reads h others access token now c u same =
    let v = (perform_all rt calls (logout_all rt user w).1).1 in
    let none_ =
      perform_all-HasNone rt user.id calls (logout_all rt user w).1 others
        (logout_all-HasNone rt user w r (reads user.id) h) in
    (
      λ passed. guard_other rt k user.id now access v u none_ passed same,
      λ given. refresh_other rt k user.id now c token v u reads none_ given same,
    )
