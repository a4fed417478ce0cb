-- ===== src/UserController.antt =====
-- Backend/controller/user.controller.ts: the handlers of the user routes, over Backend/auth/session.ts
-- and Backend/services/user.service.ts. The bodies of the requests are as the schemas left them.
pub mod Entry
pub mod Revoked
pub mod Lockout
pub mod Tests
use mern_chat_app.Common.{
  ℕ, Text, codes, Bool, true, false, ◌==◌, if◌then◌else◌, Option, none, some, List, [], ◌∷◌, ◌++◌,
}
use mern_chat_app.Database.{User, Exec, Runtime, World, Session, pure, ◌>>=◌}
use mern_chat_app.Errors.{
  Result, ok, err, Thrown, ErrorCode, app, pg, plain, invalid_credentials, session_expired,
}
use mern_chat_app.Relay.{Count}
use mern_chat_app.Sessions.{
  Tokens, CookieChange, set_auth_cookies, refresh_session, revoke_refresh_session,
  revoke_all_sessions, clear_auth_cookies,
}
use mern_chat_app.UserService.{Crypto, RegisterUserInput, register_user, authenticate_user, failure}
use mern_chat_app.UserService.Directory.{get_public_user, get_users_except}
use mern_chat_app.Users.{PublicUser, public_user}

pub data Body : Type 0 where
  message_user : Text → PublicUser → Body
  only_user : PublicUser → Body
  all_of : List PublicUser → Body
  empty_body : Body

pub record Response : Type 0 where
  pub status_code : ℕ
  pub body : Body

-- What a handler did: the response or the error that it throws, the changes of the cookies, which the
-- response has in both cases, and the counters.
pub record Handled : Type 0 where
  pub result : Result Response
  pub cookies : List CookieChange
  pub counts : List Count

abbrev pub respond : ℕ → Body → List CookieChange → Handled
respond status_code body cookies = record {
  result = ok (record { status_code = status_code; body = body });
  cookies = cookies;
  counts = [];
}

abbrev pub refuse : Thrown → List CookieChange → Handled
refuse e cookies = record { result = err e; cookies = cookies; counts = [] }

abbrev pub answered : {A : Type 0} → (A → Handled) → Result A → Handled
answered f (ok a) = f a
answered f (err e) = refuse e []

-- An action, and the response to what it returns.
abbrev pub handled : {A : Type 0} → Exec A → (A → Handled) → World → Handled × World
handled m f w = let (r, w') = m w in (answered f r, w')

unfoldable pub signup_body :
    Runtime → Tokens → Crypto → RegisterUserInput → ℕ → Exec (User × List CookieChange)
unfolding register_user set_auth_cookies
signup_body rt k crypto input now = do
  user ← register_user rt crypto input
  cookies ← set_auth_cookies rt k (rt.print_uuid user.id) now
  pure (user, cookies)

unfoldable pub signup : Runtime → Tokens → Crypto → RegisterUserInput → ℕ → World → Handled × World
unfolding signup_body
signup rt k crypto input now =
    handled (signup_body rt k crypto input now)
      (λ r. respond 201 (message_user (codes "User created successfully") (public_user r.0)) r.1)

abbrev pub is_invalid_credentials : Thrown → Bool
is_invalid_credentials (app e) = elim e.code [ invalid_credentials ↦ true | _ ↦ false ]
is_invalid_credentials _ = false

abbrev pub login_reason : Thrown → Text
login_reason e =
    if is_invalid_credentials e then codes "invalid_credentials" else codes "server_error"

-- The counter of a login, behind its `try` and `catch`.
abbrev pub count_login : Result Response → List Count
count_login (ok r) = record { name = codes "auth_login_success_total"; labels = [] } ∷ []
count_login (err e) =
    record {
      name = codes "auth_login_failure_total";
      labels = (codes "reason", login_reason e) ∷ [];
    }
    ∷ []

abbrev pub with_count : Handled → Handled
with_count h = record h { counts = count_login h.result }

-- The `try` of `login`.
unfoldable pub login_body :
    Runtime → Tokens → Crypto → Text → Text → ℕ → Exec (User × List CookieChange)
unfolding authenticate_user set_auth_cookies
login_body rt k crypto email password now = do
  user ← authenticate_user rt crypto email password
  cookies ← set_auth_cookies rt k (rt.print_uuid user.id) now
  pure (user, cookies)

unfoldable pub login : Runtime → Tokens → Crypto → Text → Text → ℕ → World → Handled × World
unfolding login_body
login rt k crypto email password now w =
    let (h, w') =
      handled (login_body rt k crypto email password now)
        (λ r.
          respond 200 (message_user (codes "User logged in successfully") (public_user r.0)) r.1)
        w in
    (with_count h, w')

abbrev pub expired : Thrown
expired = failure (codes "Session expired") 401 session_expired

-- `error instanceof AppError` with the status 404.
abbrev pub is_not_found : Thrown → Bool
is_not_found (app e) = e.status_code == 404
is_not_found _ = false

-- Behind the revocation of all sessions.
abbrev pub cleared : List CookieChange → Result (Unit {0}) → Handled
cleared cookies (ok u) = refuse expired (cookies ++ clear_auth_cookies)
cleared cookies (err e) = refuse e cookies

-- The `try` and `catch` of `refresh`, from the answer of `getPublicUser`.
unfoldable pub refresh_user :
    Runtime → Session → List CookieChange → Result PublicUser → World → Handled × World
unfolding revoke_all_sessions
refresh_user rt session cookies (ok u) w = (respond 200 (only_user u) cookies, w)
refresh_user rt session cookies (err e) w =
    if is_not_found e
    then (let (r, w') = revoke_all_sessions rt (rt.print_uuid session.user_id) w in
        (cleared cookies r, w'))
    else (refuse e cookies, w)

-- From the answer of `refreshSession`.
unfoldable pub refresh_with :
    Runtime → Result (Option (Session × List CookieChange)) → World → Handled × World
unfolding get_public_user refresh_user
refresh_with rt (err e) w = (refuse e [], w)
refresh_with rt (ok none) w = (refuse expired clear_auth_cookies, w)
refresh_with rt (ok (some (session, cookies))) w =
    let (r, w') = get_public_user rt (rt.print_uuid session.user_id) w in
    refresh_user rt session cookies r w'

-- The cookie is `none` if it is not a text.
unfoldable pub refresh : Runtime → Tokens → Option Text → ℕ → World → Handled × World
unfolding refresh_session refresh_with
refresh rt k none now w = (refuse expired [], w)
refresh rt k (some token) now w =
    let (r, w') = refresh_session rt k token now w in refresh_with rt r w'

abbrev pub me : PublicUser → Handled
me user = respond 200 (only_user user) []

unfoldable pub logout : Tokens → Option Text → World → Handled × World
unfolding revoke_refresh_session
logout k cookie =
    handled (revoke_refresh_session k cookie) (λ u. respond 204 empty_body clear_auth_cookies)

unfoldable pub logout_all : Runtime → PublicUser → World → Handled × World
unfolding revoke_all_sessions
logout_all rt user =
    handled (revoke_all_sessions rt (rt.print_uuid user.id))
      (λ u. respond 204 empty_body clear_auth_cookies)

unfoldable pub all_users : Runtime → PublicUser → World → Handled × World
unfolding get_users_except
all_users rt user =
    handled (get_users_except rt (rt.print_uuid user.id)) (λ users. respond 200 (all_of users) [])
