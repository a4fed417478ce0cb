-- ===== src/Sockets/Handshake.antt =====
-- The handshake of a socket beside the guard of the HTTP routes.
use mern_chat_app.Common.{ℕ, Text, codes, ◌≡◌, refl, Option, none, some, [], ◌∷◌, arith}
use mern_chat_app.Database.{World, Runtime, Session, Exec, ◌>>=◌, continue}
use mern_chat_app.Errors.{Result, ok, err}
use mern_chat_app.Sessions.{
  Tokens, AccessTokenPayload, verify_access_token, find_active_session_by_id,
}
use mern_chat_app.Sessions.Guard.{secure_route, with_payload, with_session, known_user}
use mern_chat_app.Sockets.{
  Verdict, admitted, rejected, auth_required, code_of, caught, handshake, authenticate, admit,
  admit_session, admit_payload, get_cookie,
}
use mern_chat_app.UserService.Directory.{find_public_by_id}
use mern_chat_app.Users.{PublicUser}

-- A cookie with a text that is not empty.
abbrev pub filled : Option Text → Option Text
filled none = none
filled (some []) = none
filled (some (c ∷ s)) = some (c ∷ s)

-- The answer to a request, as the handshake has it.
abbrev pub verdict : Runtime → Result PublicUser → Verdict
verdict rt (ok u) = admitted (rt.print_uuid u.id)
verdict rt (err e) = rejected (code_of e)

abbrev pub verdict_of : Runtime → Option Text → Result PublicUser → Verdict
verdict_of rt none r = rejected auth_required
verdict_of rt (some token) r = verdict rt r

-- Two actions that end in one state, with answers that correspond.
abbrev Corresponds : Runtime → Result Verdict × World → Result PublicUser × World → Type 0
Corresponds rt v r = (caught v.0 ≡ verdict rt r.0) × (v.1 ≡ r.1)

bind-Corresponds :
    {A : Type 0} (rt : Runtime) (m : Exec A) (f : A → Exec Verdict) (g : A → Exec PublicUser)
    (w : World)
    → ((a : A) (v : World) → Corresponds rt (f a v) (g a v))
    → Corresponds rt ((m >>= f) w) ((m >>= g) w)
bind-Corresponds {A} rt m f g w h = continued (m w).0
  where
    continued : (r : Result A) → Corresponds rt (continue r f (m w).1) (continue r g (m w).1)
    continued (ok a) = h a (m w).1
    continued (err e) = (refl, refl)

user-Corresponds :
    (rt : Runtime) (o : Option PublicUser) (w : World)
    → Corresponds rt (admit rt o w) (known_user o w)
user-Corresponds rt none w = (refl, refl)
user-Corresponds rt (some u) w = (refl, refl)

session-Corresponds :
    (rt : Runtime) (t : Text) (o : Option Session) (w : World)
    → Corresponds rt (admit_session rt t o w) (with_session rt t o w)
unfolding admit_session with_session
session-Corresponds rt t none w = (refl, refl)
session-Corresponds rt t (some s) w =
    bind-Corresponds rt (find_public_by_id rt t) (admit rt) known_user w (user-Corresponds rt)

payload-Corresponds :
    (rt : Runtime) (now : ℕ) (p : Result AccessTokenPayload) (w : World)
    → Corresponds rt (admit_payload rt now p w) (with_payload rt now p w)
unfolding admit_payload with_payload
payload-Corresponds rt now (err e) w = (refl, refl)
payload-Corresponds rt now (ok p) w =
    bind-Corresponds rt (find_active_session_by_id rt p.session_id p.user_id now)
      (admit_session rt p.user_id) (with_session rt p.user_id) w (session-Corresponds rt p.user_id)

authenticate_lem :
    (rt : Runtime) (k : Tokens) (cookie : Option Text) (now : ℕ) (w : World)
    → let r = secure_route rt k (filled cookie) now w in
      authenticate rt k cookie now w ≡ (verdict_of rt (filled cookie) r.0, r.1)
unfolding authenticate secure_route
authenticate_lem rt k none now w = refl
authenticate_lem rt k (some []) now w = refl
authenticate_lem rt k (some (c ∷ s)) now w =
    let (v, same) = payload-Corresponds rt now (verify_access_token k (c ∷ s) now) w in
    ground (arith, v, same)

-- Whatever the cookies, the database and the queries that fail: the handshake of a socket and the guard of
-- the HTTP routes agree on the cookie `accessToken`. Without one, or with an empty one, a socket is
-- rejected as AUTH_REQUIRED; else it is admitted as exactly the user for whom `secureRoute` lets a request
-- with that cookie through, and rejected if that is refused, as AUTH_EXPIRED if the token has expired and
-- as AUTH_INVALID for any other reason. Both leave the same state.
pub handshake-secure_route :
    (rt : Runtime) (k : Tokens) (decode : Text → Option Text) (header : Option Text) (now : ℕ)
    (w : World)
    → let cookie = filled (get_cookie decode header (codes "accessToken")) in
      let r = secure_route rt k cookie now w in
      handshake rt k decode header now w ≡ (verdict_of rt cookie r.0, r.1)
unfolding handshake
handshake-secure_route rt k decode header now w =
    authenticate_lem rt k (get_cookie decode header (codes "accessToken")) now w
