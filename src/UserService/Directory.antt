-- ===== src/UserService/Directory.antt =====
-- The rest of Backend/services/user.service.ts, over Backend/repositories/user.repository.ts: what the
-- application shows of its users, and the test of a signup's input.
use mern_chat_app.Common.{ℕ, Text, codes, Bool, Option, none, some, List, if◌then◌else◌}
use mern_chat_app.Database.{User, Exec, Runtime, pure, throw, ◌>>=◌}
use mern_chat_app.Errors.{not_found}
use mern_chat_app.Js.{Js, is_record, prop}
use mern_chat_app.Messages.{text_of}
use mern_chat_app.UserService.{RegisterUserInput, failure}
use mern_chat_app.Users.{
  PublicUser, public_user, find_user_by_id, find_user_by_normalized_email, list_users_except,
}

-- The user without the password's hash, unless it is asked for.
abbrev without_password : Bool → Option User → Option User
without_password include_password none = none
without_password include_password (some u) =
    some (if include_password then u else record u { password_hash = codes "" })

unfoldable pub find_by_email : Runtime → Text → Bool → Exec (Option User)
unfolding find_user_by_normalized_email
find_by_email rt email include_password = do
  user ← find_user_by_normalized_email rt email
  pure (without_password include_password user)

abbrev pub to_public_user : Option User → Option PublicUser
to_public_user none = none
to_public_user (some u) = some (public_user u)

unfoldable pub find_public_by_id : Runtime → Text → Exec (Option PublicUser)
unfolding find_user_by_id
find_public_by_id rt id = do user ← find_user_by_id rt id; pure (to_public_user user)

unfoldable pub find_by_id : Runtime → Text → Exec (Option ℕ)
unfolding find_user_by_id
find_by_id rt id = do
  user ← find_user_by_id rt id
  pure (elim user [ none ↦ none | some u ↦ some u.id ])

unfoldable pub get_public_user : Runtime → Text → Exec PublicUser
unfolding find_public_by_id
get_public_user rt id = do
  user ← find_public_by_id rt id
  elim user [ none ↦ throw (failure (codes "User not found") 404 not_found) | some u ↦ pure u ]

unfoldable pub get_users_except : Runtime → Text → Exec (List PublicUser)
unfolding list_users_except
get_users_except rt user_id = list_users_except rt user_id

-- `isRegisterUserInput`, with the value that it is then known to be.
unfoldable pub as_register_user_input : Js → Option RegisterUserInput
as_register_user_input v =
    if is_record v
    then elim (text_of (prop (codes "fullname") v)) [
      | none ↦ none
      | some fullname ↦ elim (text_of (prop (codes "email") v)) [
        | none ↦ none
        | some email ↦ elim (text_of (prop (codes "password") v)) [
          | none ↦ none
          | some password ↦ elim (text_of (prop (codes "confirmPassword") v)) [
            | none ↦ none
            | some confirm_password ↦ some (record {
              fullname = fullname;
              email = email;
              password = password;
              confirm_password = confirm_password;
            })
          ]
        ]
      ]
    ]
    else none
