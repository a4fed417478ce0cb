-- ===== src/UserController/Revoked.antt =====
-- The table of the sessions without those of one user, under the calls of the repository.
use mern_chat_app.Common.{
  ℕ, Text, ◌≡◌, refl, any, Bool, false, ◌==◌, some, List, [], ◌∷◌, arith, inl, inr, Option-cases,
  head?, ◌++◌, text_eq,
}
use mern_chat_app.Common.Sql.{select, update, delete}
use mern_chat_app.Database.{World, Runtime, Session, User, Exec, query, first_answer}
use mern_chat_app.Errors.{ok}
use mern_chat_app.Sessions.{
  Tokens, is_active_id, is_active_hash, used, find_active_session_by_id, map_session,
  mapped_session, use_session, new_session, AccessTokenPayload, verify_access_token,
  refresh_session, CookieChange, revoke_all_sessions,
}
use mern_chat_app.Sessions.Spec.{
  SessionCall, creates, uses, revokes, revokes_all, perform, perform_all,
}
use mern_chat_app.UserController.{logout_all, Response}
use mern_chat_app.Users.{PublicUser}

-- No session is the user's.
abbrev pub HasNone : ℕ → List Session → Type 0
HasNone n rows = any (λ s. s.user_id == n) rows ≡ false

-- The call creates no session for the user.
abbrev pub IsForOthers : Runtime → ℕ → SessionCall → Type 0
IsForOthers rt n (creates u h e l) = ¬ (rt.read_uuid u ≡ some n)
IsForOthers rt n (uses h now) = Unit
IsForOthers rt n (revokes h) = Unit
IsForOthers rt n (revokes_all u) = Unit

abbrev pub AreForOthers : Runtime → ℕ → List SessionCall → Type 0
AreForOthers rt n [] = Unit
AreForOthers rt n (c ∷ calls) = IsForOthers rt n c × AreForOthers rt n calls

pub delete-HasNone :
    (n : ℕ) (p : Session → Bool) (rows : List Session) → HasNone n rows → HasNone n (delete p rows)
delete-HasNone n p [] h = refl
delete-HasNone n p (s ∷ rows) h = ground (arith, delete-HasNone n p rows)

pub deleted-HasNone : (n : ℕ) (rows : List Session) → HasNone n (delete (λ s. s.user_id == n) rows)
deleted-HasNone n [] = refl
deleted-HasNone n (s ∷ rows) = ground (arith, deleted-HasNone n rows)

used-HasNone :
    (n : ℕ) (h : Text) (now : ℕ) (rows : List Session)
    → HasNone n rows
    → HasNone n (update (is_active_hash h now) (used now) rows)
used-HasNone n h now [] e = refl
used-HasNone n h now (s ∷ rows) e = ground (arith, used-HasNone n h now rows)

pub append-HasNone :
    (n : ℕ) (s : Session) (rows : List Session)
    → (s.user_id == n) ≡ false
    → HasNone n rows
    → HasNone n (rows ++ s ∷ [])
append-HasNone n s [] e h = ground arith
append-HasNone n s (r ∷ rows) e h = ground (arith, append-HasNone n s rows)

-- What a lookup finds is another user's.
pub active_other :
    (n i u now : ℕ) (rows : List Session) (s : Session)
    → HasNone n rows
    → head? (select (is_active_id i u now) rows) ≡ some s
    → ¬ (u ≡ n)
active_other n i u now [] s h e = absurd (ground arith)
active_other n i u now (r ∷ rows) s h e = ground (arith, active_other n i u now rows s)

pub hash_other :
    (n : ℕ) (t : Text) (now : ℕ) (rows : List Session) (s : Session)
    → HasNone n rows
    → (use_session t now rows).0 ≡ some s
    → ¬ (s.user_id ≡ n)
hash_other n t now [] s h e = absurd (ground arith)
hash_other n t now (r ∷ rows) s h e = ground (arith, hash_other n t now rows s)

pub user_id_lem :
    (n : ℕ) (users : List User) (u : User)
    → head? (select (λ x. x.id == n) users) ≡ some u
    → u.id ≡ n
user_id_lem n [] u e = absurd (ground arith)
user_id_lem n (x ∷ users) u e = ground (arith, user_id_lem n users u)

pub perform-HasNone :
    (rt : Runtime) (n : ℕ) (c : SessionCall) (w : World)
    → IsForOthers rt n c
    → HasNone n w.db.sessions
    → HasNone n (perform rt c w).1.db.sessions
unfolding perform mern_chat_app.Database.query mern_chat_app.Sessions.create_session
    mern_chat_app.Database.random_uuid mern_chat_app.Sessions.find_active_session_by_token_hash
    mern_chat_app.Sessions.revoke_session_by_token_hash
    mern_chat_app.Sessions.revoke_all_sessions_for_user
perform-HasNone rt n (creates u h e l) w o k = elim (Option-cases (rt.read_uuid u)) [
  | inl c ↦ ground arith
  | inr (v, c) ↦
      ground
        (arith, append-HasNone n (new_session rt (rt.random_uuid w.drawn) v h e l) w.db.sessions)
]
perform-HasNone rt n (uses h now) w o k = ground (arith, used-HasNone n h now w.db.sessions k)
perform-HasNone rt n (revokes h) w o k =
    ground (arith, delete-HasNone n (λ s. text_eq s.token_hash h) w.db.sessions k)
perform-HasNone rt n (revokes_all u) w o k = elim (Option-cases (rt.read_uuid u)) [
  | inl c ↦ ground arith
  | inr (v, c) ↦ ground (arith, delete-HasNone n (λ s. s.user_id == v) w.db.sessions k)
]

pub perform_all-HasNone :
    (rt : Runtime) (n : ℕ) (calls : List SessionCall) (w : World)
    → AreForOthers rt n calls
    → HasNone n w.db.sessions
    → HasNone n (perform_all rt calls w).1.db.sessions
unfolding perform_all
perform_all-HasNone rt n [] w o k = k
perform_all-HasNone rt n (c ∷ calls) w o k =
    perform_all-HasNone rt n calls (perform rt c w).1 o.1 (perform-HasNone rt n c w o.0 k)

pub logout_all-HasNone :
    (rt : Runtime) (user : PublicUser) (w : World) (r : Response)
    → rt.read_uuid (rt.print_uuid user.id) ≡ some user.id
    → (logout_all rt user w).0.result ≡ ok r
    → HasNone user.id (logout_all rt user w).1.db.sessions
unfolding logout_all mern_chat_app.Sessions.revoke_all_sessions
    mern_chat_app.Sessions.revoke_all_sessions_for_user mern_chat_app.Database.query
logout_all-HasNone rt user w r reads h = ground (arith, deleted-HasNone user.id w.db.sessions)
