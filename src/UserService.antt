-- ===== src/UserService.antt =====
-- Backend/services/user.service.ts over Backend/repositories: registration and authentication.
pub mod Directory
pub mod Accounts
pub mod Tests
use mern_chat_app.Common.{
  ℕ, Text, codes, text_eq, Bool, true, not, ltb, ◌||◌, ◌==◌, length, if◌then◌else◌, Option, none,
  some,
}
use mern_chat_app.Database.{User, Exec, Runtime, pure, throw, ◌>>=◌}
use mern_chat_app.Errors.{Thrown, app, ErrorCode, validation_error, conflict, invalid_credentials}
use mern_chat_app.Js.Trim.{trim}
use mern_chat_app.Users.{create_user, find_user_by_normalized_email}
use mern_chat_app.Validation.{max_fullname_length, max_email_length, max_password_length, has_at}

-- `String.prototype.toLowerCase` and the two functions of bcryptjs.
pub record Crypto : Type 0 where
  pub lower : Text → Text
  pub hash : Text → Text
  pub compare : Text → Text → Bool

pub record RegisterUserInput : Type 0 where
  pub fullname : Text
  pub email : Text
  pub password : Text
  pub confirm_password : Text

unfoldable pub normalize_email : Crypto → Text → Text
normalize_email k email = k.lower (trim email)

-- The long condition of `registerUser`.
unfoldable pub is_rejected : RegisterUserInput → Bool
is_rejected input =
    ltb (length (trim input.fullname)) 2
    || ltb max_fullname_length (length (trim input.fullname))
    || ltb max_email_length (length (trim input.email))
    || not (has_at input.email)
    || ltb (length input.password) 8
    || ltb max_password_length (length input.password)
    || ltb (length input.confirm_password) 8
    || ltb max_password_length (length input.confirm_password)

abbrev pub failure : Text → ℕ → ErrorCode → Thrown
failure message status_code code =
    app (record { message = message; status_code = status_code; code = code })

-- From the lookup on.
unfoldable pub register_new : Runtime → Crypto → RegisterUserInput → Option User → Exec User
unfolding normalize_email create_user
register_new rt k input (some u) = throw (failure (codes "User already registered") 409 conflict)
register_new rt k input none =
    create_user rt (trim input.fullname) (normalize_email k input.email) (k.hash input.password)

unfoldable pub register_user : Runtime → Crypto → RegisterUserInput → Exec User
unfolding is_rejected normalize_email find_user_by_normalized_email register_new
register_user rt k input w =
    if is_rejected input
    then throw (failure (codes "Invalid signup data") 400 validation_error) w
    else if not (text_eq input.password input.confirm_password)
    then throw (failure (codes "Passwords do not match") 400 validation_error) w
    else (find_user_by_normalized_email rt (normalize_email k input.email)
          >>= register_new rt k input)
        w

abbrev pub bad_credentials : Thrown
bad_credentials = failure (codes "Invalid user credential") 401 invalid_credentials

-- With the row of the e-mail address.
unfoldable pub checked : Crypto → Text → Option User → Exec User
checked k password none w = throw bad_credentials w
checked k password (some u) w =
    if k.compare password u.password_hash then pure u w else throw bad_credentials w

unfoldable pub authenticate_user : Runtime → Crypto → Text → Text → Exec User
unfolding normalize_email find_user_by_normalized_email checked
authenticate_user rt k email password w =
    if length (trim email) == 0
      || ltb max_email_length (length (trim email))
      || length password == 0
      || ltb max_password_length (length password)
    then throw bad_credentials w
    else (find_user_by_normalized_email rt (normalize_email k email) >>= checked k password) w
