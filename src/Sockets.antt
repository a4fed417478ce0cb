-- ===== src/Sockets.antt =====
-- Backend/SocketIO/server.ts: the handshake of a socket, the map of the users' sockets on this server, and
-- what a connection and a disconnection do to it and to the presence in Redis. Rooms, the transport and
-- the adapter belong to Socket.IO.
pub mod Handshake
pub mod Registry
pub mod Tests
use mern_chat_app.Common.{
  ℕ, Text, codes, text_eq, any, Bool, true, false, not, ◌&&◌, ◌==◌, if◌then◌else◌, Option, none,
  some, List, [], ◌∷◌, ◌++◌,
}
use mern_chat_app.Common.Sql.{update, delete}
use mern_chat_app.Database.{Exec, World, Runtime, Session, pure, throw, ◌>>=◌}
use mern_chat_app.Errors.{Result, ok, err, Thrown, token_expired}
use mern_chat_app.Js.Trim.{trim}
use mern_chat_app.Presence.{PresenceState, mark_user_online, mark_user_offline, get_online_user_ids}
use mern_chat_app.Sessions.{
  Tokens, AccessTokenPayload, verify_access_token, find_active_session_by_id,
}
use mern_chat_app.UserService.Directory.{find_public_by_id}
use mern_chat_app.Users.{PublicUser}

pub data AuthCode : Type 0 where
  auth_required auth_invalid auth_expired : AuthCode

-- The argument of `next`, with the user that `socket.data` has then.
pub data Verdict : Type 0 where
  admitted : Text → Verdict
  rejected : AuthCode → Verdict

-- `split(";")`.
abbrev pub cons_first : ℕ → List Text → List Text
cons_first c [] = (c ∷ []) ∷ []
cons_first c (t ∷ ts) = (c ∷ t) ∷ ts

abbrev pub split_at : ℕ → Text → List Text
split_at separator [] = [] ∷ []
split_at separator (c ∷ s) =
    let rest = split_at separator s in if c == separator then [] ∷ rest else cons_first c rest

-- The parts of a text before and behind the first `separator`, if there is one.
abbrev pub cut : ℕ → Text → Option (Text × Text)
cut separator [] = none
cut separator (c ∷ s) =
    let rest = cut separator s in
    if c == separator
    then some ([], s)
    else elim rest [ none ↦ none | some p ↦ some (c ∷ p.0, p.1) ]

-- `decode` is `decodeURIComponent`, `none` if it throws.
abbrev pub decoded : (Text → Option Text) → Text → Option Text
decoded decode [] = none
decoded decode (c ∷ s) = decode (c ∷ s)

unfoldable pub find_cookie : (Text → Option Text) → Text → List Text → Option Text
find_cookie decode cookie_name [] = none
find_cookie decode cookie_name (cookie ∷ cookies) =
    let rest = find_cookie decode cookie_name cookies in
    elim (cut b'=' cookie) [
      | none ↦ rest
      | some p ↦ if text_eq (trim p.0) cookie_name then decoded decode (trim p.1) else rest
    ]

-- The header is `none` if it is not there.
unfoldable pub get_cookie : (Text → Option Text) → Option Text → Text → Option Text
unfolding find_cookie
get_cookie decode none cookie_name = none
get_cookie decode (some []) cookie_name = none
get_cookie decode (some (c ∷ s)) cookie_name =
    find_cookie decode cookie_name (split_at b';' (c ∷ s))

-- The `catch` of the handshake.
abbrev pub code_of : Thrown → AuthCode
code_of token_expired = auth_expired
code_of _ = auth_invalid

abbrev pub caught : Result Verdict → Verdict
caught (ok v) = v
caught (err e) = rejected (code_of e)

abbrev pub admit : Runtime → Option PublicUser → Exec Verdict
admit rt none = pure (rejected auth_invalid)
admit rt (some u) = pure (admitted (rt.print_uuid u.id))

unfoldable pub admit_session : Runtime → Text → Option Session → Exec Verdict
unfolding find_public_by_id
admit_session rt user_id none w = pure (rejected auth_invalid) w
admit_session rt user_id (some s) w = (find_public_by_id rt user_id >>= admit rt) w

-- The `try`.
unfoldable pub admit_payload : Runtime → ℕ → Result AccessTokenPayload → Exec Verdict
unfolding find_active_session_by_id admit_session
admit_payload rt now (err e) w = throw e w
admit_payload rt now (ok p) w =
    (find_active_session_by_id rt p.session_id p.user_id now >>= admit_session rt p.user_id) w

unfoldable pub authenticate : Runtime → Tokens → Option Text → ℕ → World → Verdict × World
unfolding verify_access_token admit_payload
authenticate rt k none now w = (rejected auth_required, w)
authenticate rt k (some []) now w = (rejected auth_required, w)
authenticate rt k (some (c ∷ token)) now w =
    let (r, w') = admit_payload rt now (verify_access_token k (c ∷ token) now) w in (caught r, w')

-- `io.use`.
unfoldable pub handshake :
    Runtime → Tokens → (Text → Option Text) → Option Text → ℕ → World → Verdict × World
unfolding get_cookie authenticate
handshake rt k decode header now =
    authenticate rt k (get_cookie decode header (codes "accessToken")) now

-- `socketsByUser`: a map's entries in the order of their insertion, a set's members likewise.
abbrev pub SocketMap : Type 0
SocketMap = List (Text × List Text)

abbrev pub get : Text → SocketMap → Option (List Text)
get u [] = none
get u (e ∷ entries) = let rest = get u entries in if text_eq e.0 u then some e.1 else rest

abbrev pub add : Text → List Text → List Text
add s sockets = if any (λ t. text_eq t s) sockets then sockets else sockets ++ s ∷ []

abbrev pub put : Text → List Text → SocketMap → SocketMap
put u sockets = update (λ e. text_eq e.0 u) (λ e. (e.0, sockets))

abbrev pub is_empty : List Text → Bool
is_empty [] = true
is_empty (s ∷ sockets) = false

unfoldable pub add_socket_for_user : Text → Text → SocketMap → Bool × SocketMap
add_socket_for_user user_id socket_id m = elim (get user_id m) [
  | none ↦ (true, m ++ (user_id, add socket_id []) ∷ [])
  | some sockets ↦ (is_empty sockets, put user_id (add socket_id sockets) m)
]

-- Behind `sockets.delete`.
abbrev pub removed : Text → List Text → SocketMap → Bool × SocketMap
removed user_id (s ∷ sockets) m = (false, put user_id (s ∷ sockets) m)
removed user_id [] m = (true, delete (λ e. text_eq e.0 user_id) m)

unfoldable pub remove_socket_for_user : Text → Text → SocketMap → Bool × SocketMap
remove_socket_for_user user_id socket_id m = elim (get user_id m) [
  | none ↦ (false, m)
  | some sockets ↦ removed user_id (delete (λ t. text_eq t socket_id) sockets) m
]

-- An `emit` of `getOnlineUsers`.
pub data Emission : Type 0 where
  to_all : List Text → Emission
  to_socket : Text → List Text → Emission

-- Behind `addSocketForUser`, if Redis answers: the presence, and what is emitted.
unfoldable pub announce_online : ℕ → Bool → Text → Text → PresenceState → Emission × PresenceState
unfolding mark_user_online get_online_user_ids
announce_online now became_online user_id socket_id p =
    let (ids, p') = get_online_user_ids now (mark_user_online now user_id socket_id p) in
    (if became_online then to_all ids else to_socket socket_id ids, p')

-- Behind `removeSocketForUser`, if Redis answers.
unfoldable pub announce_offline :
    ℕ → Bool → Text → Text → PresenceState → List Emission × PresenceState
unfolding mark_user_offline get_online_user_ids
announce_offline now became_offline user_id socket_id p =
    let marked = mark_user_offline now user_id socket_id p in
    let (ids, p') = get_online_user_ids now marked in
    if became_offline then (to_all ids ∷ [], p') else ([], marked)
