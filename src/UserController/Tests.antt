-- ===== src/UserController/Tests.antt =====
-- A user with a session, a login, and what is left after `logoutAll`.
use mern_chat_app.Common.{
  ℕ, zero, suc, Text, codes, text_eq, ◌≡◌, refl, ◌+◌, ◌-◌, leb, if◌then◌else◌, Option, none, some,
  [], ◌∷◌, ◌++◌, length, arith, ◌≤◌, ◌∙◌,
}
use mathlib.Core.List.{append-nil, append_assoc}
use mern_chat_app.Database.{World, Runtime, Session}
use mern_chat_app.Database.Samples.{sample_runtime, sample_world, sample_user, sample_db}
use mern_chat_app.Errors.{Result, ok, err, bad_token, token_expired}
use mern_chat_app.Js.{Js, obj, str, field, end, prop}
use mern_chat_app.Messages.{text_of}
use mern_chat_app.Sessions.{Tokens, access_token_ttl_ms, set_access, set_refresh}
use mern_chat_app.Sessions.Guard.{secure_route}
use mern_chat_app.Sessions.Spec.{creates, uses, perform_all}
use mern_chat_app.UserController.{login, logout_all, refresh, only_user, empty_body}
use mern_chat_app.UserController.Entry.{login-secure_route}
use mern_chat_app.UserController.Lockout.{logout_all_locks}
use mern_chat_app.UserService.{Crypto}
use mern_chat_app.Users.{PublicUser, public_user}

-- Texts of 36 code units, which differ in the last one.
abbrev print_padded : ℕ → Text
print_padded n = codes "00000000-0000-4000-8000-00000000000" ++ (48 + n) ∷ []

abbrev last_digit : Text → Option ℕ
last_digit [] = none
last_digit (c ∷ []) = some (c - 48)
last_digit (c ∷ d ∷ s) = last_digit (d ∷ s)

abbrev pub padded_runtime : Runtime
padded_runtime = record sample_runtime {
  print_uuid = print_padded;
  read_uuid = last_digit;
  random_uuid = λ k. 7 + k;
}

padded_reads : (n : ℕ) → padded_runtime.read_uuid (padded_runtime.print_uuid n) ≡ some n
padded_reads n = ground arith

-- A signature that keeps the time, the length of the first text, and the two texts.
abbrev claims : ℕ → Text → Text → Js
claims zero t i = obj (field (codes "userId") (str t) (field (codes "sessionId") (str i) end))
claims (suc n) t [] = claims n t []
claims (suc n) t (c ∷ s) = claims n (t ++ c ∷ []) s

abbrev verify_at : Text → ℕ → Result Js
verify_at (at ∷ n ∷ s) now =
    if leb (now + 1_000) (at + access_token_ttl_ms) then ok (claims n [] s) else err token_expired
verify_at _ now = err bad_token

abbrev pub plain_tokens : Tokens
plain_tokens = record {
  hash_token = λ s. 35 ∷ s;
  random_token = λ n. n ∷ codes "r";
  sign = λ t i at. at ∷ length t ∷ t ++ i;
  verify = verify_at;
}

claims_lem :
    (s t i : Text)
    → claims (length s) t (s ++ i)
      ≡ obj (field (codes "userId") (str (t ++ s)) (field (codes "sessionId") (str i) end))
claims_lem [] t i = rw (append-nil t) refl
claims_lem (c ∷ s) t i = claims_lem s (t ++ c ∷ []) i ∙ rw (append_assoc t (c ∷ []) s) refl

plain_verifies :
    (t i : Text) (at at' : ℕ)
    → at' + 1_000 ≤ at + access_token_ttl_ms
    → (x : Js) × (plain_tokens.verify (plain_tokens.sign t i at) at' ≡ ok x)
      × (text_of (prop (codes "userId") x) ≡ some t)
      × (text_of (prop (codes "sessionId") x) ≡ some i)
plain_verifies t i at at' h = (
  obj (field (codes "userId") (str t) (field (codes "sessionId") (str i) end)),
  ground (arith, claims_lem t [] i),
  refl,
  refl,
)

abbrev open_crypto : Crypto
open_crypto = record { lower = λ s. s; hash = λ s. s; compare = text_eq }

abbrev entered : World
entered =
    (login padded_runtime plain_tokens open_crypto (1 ∷ codes "@b") (codes "hash") 100
      sample_world).1

login-secure_route_example :
    (token fresh : Text) × ((login padded_runtime plain_tokens open_crypto
        (1 ∷ codes "@b")
        (codes "hash")
        100
        sample_world).0.cookies
      ≡ set_access token ∷ set_refresh fresh ∷ [])
    × (q : PublicUser) × ((secure_route padded_runtime plain_tokens (some token) 5_000 entered).0
        ≡ ok q)
    × (q.id ≡ 1)
unfolding login mern_chat_app.Js.Uuid.is_loose_id
login-secure_route_example =
    login-secure_route padded_runtime plain_tokens open_crypto (1 ∷ codes "@b") (codes "hash")
      (codes "User logged in successfully") 100 5_000 200 sample_world entered
      (public_user (sample_user 1)) padded_reads plain_verifies refl refl refl refl refl
      (ground arith)

-- The first user with a session, and a session of another user that is made and used behind the logout.
abbrev stored_session : Session
stored_session = record {
  id = 9;
  user_id = 1;
  token_hash = codes "#t";
  expires_at = 9_000;
  last_used_at = 0;
  created_at = 0;
  updated_at = 0;
}

abbrev logged_in : World
logged_in = record sample_world { db = record sample_db { sessions = stored_session ∷ [] } }

abbrev first_user : PublicUser
first_user = public_user (sample_user 1)

logout_all_locks_example :
    let v =
      (perform_all padded_runtime
        (creates (print_padded 2) (codes "#u") 9_000 10 ∷ uses (codes "#u") 20 ∷ [])
        (logout_all padded_runtime first_user logged_in).1).1 in
    (¬ (
      (secure_route padded_runtime plain_tokens
        (some (plain_tokens.sign (print_padded 1) (print_padded 9) 0))
        30
        v).0
      ≡ ok first_user))
    × (¬ (
        (refresh padded_runtime plain_tokens (some (codes "t")) 30 v).0.result
        ≡ ok (record { status_code = 200; body = only_user first_user })))
unfolding logout_all
logout_all_locks_example =
    logout_all_locks padded_runtime plain_tokens first_user logged_in
      (record { status_code = 204; body = empty_body })
      (creates (print_padded 2) (codes "#u") 9_000 10 ∷ uses (codes "#u") 20 ∷ []) padded_reads refl
      (ground arith, (tt, tt)) (some (plain_tokens.sign (print_padded 1) (print_padded 9) 0))
      (some (codes "t")) 30 200 first_user refl
