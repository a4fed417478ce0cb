-- ===== src/Sessions/Guard.antt =====
-- Backend/middleware/secureRoute.ts: the user that a request with a cookie acts for. A value that is
-- passed to `next` is thrown.
use mern_chat_app.Common.{ℕ, Text, codes, Option, none, some}
use mern_chat_app.Database.{Exec, Runtime, Session, pure, throw, ◌>>=◌}
use mern_chat_app.Errors.{Result, ok, err, Thrown, app, unauthenticated}
use mern_chat_app.Sessions.{
  Tokens, AccessTokenPayload, verify_access_token, find_active_session_by_id,
}
use mern_chat_app.UserService.Directory.{find_public_by_id}
use mern_chat_app.Users.{PublicUser}

abbrev pub refusal : Text → Thrown
refusal message = app (record { message = message; status_code = 401; code = unauthenticated })

-- With the user, if there is one.
abbrev pub known_user : Option PublicUser → Exec PublicUser
known_user none w = throw (refusal (codes "Invalid session")) w
known_user (some u) w = pure u w

-- With the session, if there is one.
unfoldable pub with_session : Runtime → Text → Option Session → Exec PublicUser
unfolding find_public_by_id
with_session rt user_id none w = throw (refusal (codes "Invalid session")) w
with_session rt user_id (some s) w = (find_public_by_id rt user_id >>= known_user) w

-- From the payload on.
unfoldable pub with_payload : Runtime → ℕ → Result AccessTokenPayload → Exec PublicUser
unfolding find_active_session_by_id with_session
with_payload rt now (err e) w = throw e w
with_payload rt now (ok p) w =
    (find_active_session_by_id rt p.session_id p.user_id now >>= with_session rt p.user_id) w

-- `secureRoute`; the cookie is `none` if it is not a text.
unfoldable pub secure_route : Runtime → Tokens → Option Text → ℕ → Exec PublicUser
unfolding verify_access_token with_payload
secure_route rt k none now w = throw (refusal (codes "Authentication required")) w
secure_route rt k (some token) now w = with_payload rt now (verify_access_token k token now) w
