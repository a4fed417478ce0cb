-- ===== src/Sessions.antt =====
-- Backend/repositories/postgres/session.repository.ts over the table `sessions`, and
-- Backend/auth/session.ts: access tokens, refresh tokens and their cookies. `now` is the value of
-- `new Date()`, in milliseconds.
pub mod Spec
pub mod Refinement
pub mod Guard
pub mod Tests
use mern_chat_app.Common.{
  ℕ, Text, codes, text_eq, any, Bool, true, false, ltb, ◌==◌, ◌&&◌, ◌||◌, ◌+◌, ◌*◌, if◌then◌else◌,
  Option, none, some, List, [], ◌∷◌, ◌++◌, head?,
}
use mern_chat_app.Common.Sql.{select, update, delete}
use mern_chat_app.Conversations.{has_user}
use mern_chat_app.Database.{
  Db, Session, Exec, Runtime, World, query, random_uuid, cast_uuid, pure, throw, ◌>>=◌, ◌>>◌,
}
use mern_chat_app.Errors.{Result, ok, err, pg, plain, Thrown, token_expired, bad_token}
use mern_chat_app.Js.{Js, is_record, prop}
use mern_chat_app.Js.Uuid.{is_loose_id}
use mern_chat_app.Messages.{text_of}

-- What the sessions take from Node.js and jsonwebtoken: SHA-256, the random texts of refresh tokens,
-- the signature of an access token for a user and a session at a time, and its verification at a time.
pub record Tokens : Type 0 where
  pub hash_token : Text → Text
  pub random_token : ℕ → Text
  pub sign : Text → Text → ℕ → Text
  pub verify : Text → ℕ → Result Js

-- `mapSession`: the dates go through `new Date(String(value))`.
abbrev pub map_session : Runtime → Session → Session
map_session rt row = record row {
  expires_at = rt.row_date row.expires_at;
  last_used_at = rt.row_date row.last_used_at;
  created_at = rt.row_date row.created_at;
  updated_at = rt.row_date row.updated_at;
}

abbrev pub new_session : Runtime → ℕ → ℕ → Text → ℕ → ℕ → Session
new_session rt id user_id token_hash expires_at last_used_at = record {
  id = id;
  user_id = user_id;
  token_hash = token_hash;
  expires_at = expires_at;
  last_used_at = last_used_at;
  created_at = rt.now;
  updated_at = rt.now;
}

-- INSERT, with the primary key, the unique hash and the foreign key of `sessions`.
abbrev pub insert_session : Runtime → ℕ → ℕ → Text → ℕ → ℕ → Db → Result (Session × Db)
insert_session rt id user_id token_hash expires_at last_used_at db =
    if any (λ s. s.id == id) db.sessions || any (λ s. text_eq s.token_hash token_hash) db.sessions
    then err (pg (codes "23505"))
    else if has_user user_id db
    then ok (
      map_session rt (new_session rt id user_id token_hash expires_at last_used_at),
      record db {
        sessions = db.sessions ++ new_session rt id user_id token_hash expires_at last_used_at ∷ [];
      },
    )
    else err (pg (codes "23503"))

unfoldable pub create_session : Runtime → Text → Text → ℕ → ℕ → Exec Session
unfolding query random_uuid
create_session rt user_id token_hash expires_at last_used_at = do
  id ← random_uuid rt
  query λ db. elim (cast_uuid rt user_id) [
    | err e ↦ err e
    | ok u ↦ insert_session rt id u token_hash expires_at last_used_at db
  ]

-- `token_hash = $1 AND expires_at > $2`.
abbrev pub is_active_hash : Text → ℕ → Session → Bool
is_active_hash token_hash now s = text_eq s.token_hash token_hash && ltb now s.expires_at

abbrev pub used : ℕ → Session → Session
used now s = record s { last_used_at = now; updated_at = now }

-- UPDATE ... RETURNING: the first row that is returned, and the table.
abbrev pub use_session : Text → ℕ → List Session → Option Session × List Session
use_session token_hash now rows = (
  elim (head? (select (is_active_hash token_hash now) rows)) [
    | none ↦ none
    | some s ↦ some (used now s)
  ],
  update (is_active_hash token_hash now) (used now) rows,
)

abbrev pub mapped_session : Runtime → Option Session → Option Session
mapped_session rt none = none
mapped_session rt (some s) = some (map_session rt s)

unfoldable pub find_active_session_by_token_hash : Runtime → Text → ℕ → Exec (Option Session)
unfolding query
find_active_session_by_token_hash rt token_hash now = query λ db.
    let (found, rows) = use_session token_hash now db.sessions in
    ok (mapped_session rt found, record db { sessions = rows })

-- `id = $1 AND user_id = $2 AND expires_at > $3`.
abbrev pub is_active_id : ℕ → ℕ → ℕ → Session → Bool
is_active_id id user_id now s = s.id == id && s.user_id == user_id && ltb now s.expires_at

unfoldable pub find_active_session_by_id : Runtime → Text → Text → ℕ → Exec (Option Session)
unfolding query
find_active_session_by_id rt session_id user_id now = query λ db. elim (cast_uuid rt session_id) [
  | err e ↦ err e
  | ok i ↦ elim (cast_uuid rt user_id) [
    | err e ↦ err e
    | ok u ↦ ok (mapped_session rt (head? (select (is_active_id i u now) db.sessions)), db)
  ]
]

unfoldable pub revoke_session_by_token_hash : Text → Exec (Unit {0})
unfolding query
revoke_session_by_token_hash token_hash = query λ db.
    ok (tt, record db { sessions = delete (λ s. text_eq s.token_hash token_hash) db.sessions })

unfoldable pub revoke_all_sessions_for_user : Runtime → Text → Exec (Unit {0})
unfolding query
revoke_all_sessions_for_user rt user_id = query λ db. elim (cast_uuid rt user_id) [
  | err e ↦ err e
  | ok u ↦ ok (tt, record db { sessions = delete (λ s. s.user_id == u) db.sessions })
]

-- 15 minutes.
abbrev pub access_token_ttl_ms : ℕ
access_token_ttl_ms = 15 * 60 * 1_000

-- 30 days.
abbrev pub refresh_token_ttl_ms : ℕ
refresh_token_ttl_ms = 30 * 24 * 60 * 60 * 1_000

-- What an answer does to the two cookies of the client.
pub data CookieChange : Type 0 where
  set_access set_refresh : Text → CookieChange
  clear_access clear_refresh : CookieChange

-- The cookies that `setAuthCookies` sets, in its order.
unfoldable pub set_auth_cookies : Runtime → Tokens → Text → ℕ → Exec (List CookieChange)
unfolding create_session
set_auth_cookies rt k user_id now w =
    let refresh_token = k.random_token w.drawn in
    (do
      session ←
          create_session rt user_id (k.hash_token refresh_token) (now + refresh_token_ttl_ms) now
      pure (
          set_access (k.sign user_id (rt.print_uuid session.id) now)
          ∷ set_refresh refresh_token
          ∷ []))
      w

-- The session and the cookie that is set, or `none`.
abbrev pub refreshed : Runtime → Tokens → ℕ → Option Session → Option (Session × List CookieChange)
refreshed rt k now none = none
refreshed rt k now (some s) =
    some (s, set_access (k.sign (rt.print_uuid s.user_id) (rt.print_uuid s.id) now) ∷ [])

unfoldable pub refresh_session :
    Runtime → Tokens → Text → ℕ → Exec (Option (Session × List CookieChange))
unfolding find_active_session_by_token_hash
refresh_session rt k refresh_token now = do
  session ← find_active_session_by_token_hash rt (k.hash_token refresh_token) now
  pure (refreshed rt k now session)

-- The cookie may be absent, or an empty text.
unfoldable pub revoke_refresh_session : Tokens → Option Text → Exec (Unit {0})
unfolding revoke_session_by_token_hash
revoke_refresh_session k none = pure tt
revoke_refresh_session k (some []) = pure tt
revoke_refresh_session k (some (c ∷ s)) = revoke_session_by_token_hash (k.hash_token (c ∷ s))

unfoldable pub revoke_all_sessions : Runtime → Text → Exec (Unit {0})
unfolding revoke_all_sessions_for_user
revoke_all_sessions rt user_id = revoke_all_sessions_for_user rt user_id

abbrev pub clear_auth_cookies : List CookieChange
clear_auth_cookies = clear_access ∷ clear_refresh ∷ []

pub record AccessTokenPayload : Type 0 where
  pub user_id : Text
  pub session_id : Text

abbrev pub invalid_payload : Thrown
invalid_payload = plain (codes "Invalid access token payload")

-- The checks on a payload that is not a text.
abbrev pub checked_payload : Option Text → Option Text → Result AccessTokenPayload
checked_payload (some user_id) (some session_id) =
    if is_loose_id user_id && is_loose_id session_id
    then ok (record { user_id = user_id; session_id = session_id })
    else err invalid_payload
checked_payload (some user_id) none = err invalid_payload
checked_payload none session_id = err invalid_payload

unfoldable pub verify_access_token : Tokens → Text → ℕ → Result AccessTokenPayload
verify_access_token k token now = elim (k.verify token now) [
  | err e ↦ err e
  | ok v ↦
      checked_payload (text_of (prop (codes "userId") v)) (text_of (prop (codes "sessionId") v))
]
